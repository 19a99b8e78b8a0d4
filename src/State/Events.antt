-- ===== src/State/Events.antt =====
-- crates/blackbox-server/src/state.rs: what the event log keeps, and the time between resyncs.
use k_blackbox.Base.{
  ℕ, ◌-◌, ◌≡◌, refl, ap, ◌∙◌, List, [], ◌∷◌, String, str_eq, length, drop, leb, length-drop, min,
  trim_front-eq-drop, drop-drop, push_window, push_window-eq, arith, if◌then◌else◌,
}
use k_blackbox.Words.{Time, seconds_since}
use k_blackbox.DashMap.{get-insert}
use k_blackbox.State.{AppState, UiEventLogEntry, push_event, get_events, can_resync, record_resync}

module _ {D F : Type 0} where
  -- A run of events, each at its time.
  pub push_events : List UiEventLogEntry → AppState D F → AppState D F
  push_events [] s = s
  push_events (e ∷ es) s = push_events es (push_event e.timestamp e.event s)

  push_events-window :
      (es : List UiEventLogEntry) (s : AppState D F)
      → (push_events es s).event_log ≡ push_window 500 es s.event_log
  unfolding push_events push_event
  push_events-window [] s = refl
  push_events-window (e ∷ es) s = push_events-window es (push_event e.timestamp e.event s)

  -- After any run of events on a state with an empty log, `get_events` gives the latest ones in
  -- their order: as many as asked for, as were pushed and as the log holds, 500.
  pub get_events-push_events :
      (s : AppState D F) (es : List UiEventLogEntry) (limit : ℕ)
      → s.event_log ≡ []
      → get_events limit (push_events es s) ≡ drop (length es - min limit 500) es
  unfolding get_events
  get_events-push_events s es limit h =
      ap (λ l. drop (length l - limit) l) log
      ∙ drop-drop (length (drop (length es - 500) es) - limit) (length es - 500) es
      ∙ ap (λ n. drop n es) (omega (arith, length-drop (length es - 500) es))
    where
      log : (push_events es s).event_log ≡ drop (length es - 500) es
      log =
          push_events-window es s
          ∙ ap (push_window 500 es) h
          ∙ push_window-eq 500 es [] (omega arith)
          ∙ trim_front-eq-drop 500 es

  -- After a resync another one of the same symbol waits for three full seconds; the other symbols
  -- are not held back.
  pub can_resync-record_resync :
      (then' now : Time) (symbol other : String) (s : AppState D F)
      → can_resync now other (record_resync then' symbol s)
        ≡ (if str_eq symbol other then leb 3 (seconds_since now then') else can_resync now other s)
  unfolding can_resync record_resync
  can_resync-record_resync then' now symbol other s =
      ground (arith, get-insert symbol other then' s.last_resync)
