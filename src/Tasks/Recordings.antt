-- ===== src/Tasks/Recordings.antt =====
-- crates/blackbox-server/src/main.rs: playing a recording keeps the shared state sound.
use k_blackbox.Base.{List, [], ◌∷◌, Option, none, some, String, str_eq, holds_if}
use k_blackbox.Decimal.{Decimal}
use k_blackbox.Words.{Time, Float}
use k_blackbox.DashMap.{Map, contains_key}
use k_blackbox.Types.{InstrumentPair, InstrumentInfo}
use k_blackbox.Parser.{ParsedFrame, ack, book, instrument, status, heartbeat, ok, err, parse_frame}
use k_blackbox.Parser
use k_blackbox.Client.Connection.{Wire, WsEvent}
use k_blackbox.State.{AppState, push_event, record_started}
use k_blackbox.State
use k_blackbox.Playback.{
  is_wanted, ensure_health, increments, wanted_pairs, events_of, frame_events, begin,
}
use k_blackbox.Tasks.Sound.{IsSound, push_event-IsSound}

module _ {D F N : Type 0} ⦃d : Decimal D⦄ (f : Float F) (w : Wire D F N)
    (requested : List String) where
  pub begin-IsSound :
      (started joined : Time) (input : String) (s : AppState D F)
      → IsSound s
      → IsSound (begin f w requested started joined input s)
  unfolding begin
  begin-IsSound started joined input s v =
      push_event-IsSound joined State.connected (push_event started (record_started input) s)
        (push_event-IsSound started (record_started input) s v)

  ensure_health-IsSound :
      (symbol : String) (o : Option (D × D)) (s : AppState D F)
      → IsSound s
      → IsSound (ensure_health f symbol o s)
  ensure_health-IsSound symbol none s v = v
  ensure_health-IsSound symbol (some o) s v =
      holds_if IsSound (contains_key symbol s.health) s _ v v

  wanted_pairs-IsSound :
      (pairs : List InstrumentPair) (m : Map (InstrumentInfo D)) (s : AppState D F)
      → IsSound s
      → IsSound (wanted_pairs f w requested pairs m s).1
  unfolding wanted_pairs
  wanted_pairs-IsSound [] m s v = v
  wanted_pairs-IsSound (pair ∷ pairs) m s v =
      let incs = increments f w requested pair in
      wanted_pairs-IsSound pairs _ _ (
        holds_if IsSound (is_wanted requested pair.symbol) (ensure_health f pair.symbol incs s) s
          (ensure_health-IsSound pair.symbol incs s v) v)

  events_of-IsSound :
      (p : ParsedFrame N) (s : AppState D F) → IsSound s → IsSound (events_of f w requested p s).1
  unfolding events_of
  events_of-IsSound (ok (instrument msg)) s v =
      holds_if (λ (x : List (WsEvent D) × AppState D F). IsSound x.1)
        (str_eq msg.msg_type "snapshot") _ _ (wanted_pairs-IsSound msg.content.pairs [] s v) v
  events_of-IsSound (ok (book msg)) s v = v
  events_of-IsSound (ok (heartbeat m)) s v = v
  events_of-IsSound (ok (Parser.ping m)) s v = v
  events_of-IsSound (ok (status m)) s v = v
  events_of-IsSound (ok (ack a)) s v = v
  events_of-IsSound (err e) s v = v

  -- A frame that is played keeps the shared state sound.
  pub frame_events-IsSound :
      (text : String) (s : AppState D F) → IsSound s → IsSound (frame_events f w requested text s).1
  unfolding frame_events
  frame_events-IsSound text s v = events_of-IsSound (parse_frame w.messages text) s v
