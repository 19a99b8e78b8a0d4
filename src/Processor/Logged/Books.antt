-- ===== src/Processor/Logged/Books.antt =====
-- crates/blackbox-server/src/main.rs: the books that the logging loop keeps.
use k_blackbox.Base.{
  ℕ, ◌≡◌, refl, sym, ap, ap₂, ◌∙◌, subst, List, [], ◌∷◌, Bool, true, false, Bool-cases, inl, inr,
  Option, none, some, String, eq_iff, map, arith,
}
use k_blackbox.Decimal.{Decimal, Level}
use k_blackbox.Words.{Float}
use k_blackbox.Json.{get as get_json, as_str, ◌>>=◌}
use k_blackbox.DashMap.{Map, get, insert, get_or, get-insert}
use k_blackbox.Types.{InstrumentInfo}
use k_blackbox.Orderbook.{Orderbook}
use k_blackbox.Integrity.Injector.{FaultInjector, consume}
use k_blackbox.Integrity.Proof.{IntegrityProof}
use k_blackbox.State.{
  AppState, subscribed_book, push_event, can_resync, get_or_create_frame_buffer, set_last_incident,
  get_depth,
}
use k_blackbox.Client.Connection.{
  WsEvent, connected, disconnected, rate_limit_exceeded, frame, error, instrument_snapshot,
  book_snapshot, book_update,
}
use k_blackbox.Processor.Defs.{
  snapshot_book, updated_book, store_book, store_instruments, store_frame, judge_health,
}
use k_blackbox.Processor.Capture.{
  Tools, LogClock, LoggedState, record_if_enabled, note_resync, buffer_frame, on_frame, capture,
  judge, verify_with, verify_book, put_book,
}
use k_blackbox.Processor.Logged.{
  on_snapshot, apply_update, update_book, on_update, process_event, process_ws_events,
}
use k_blackbox.Processor.Books.{book_step, book_after, IsKept, book_after-IsKept}

module _ {D F : Type 0} where
  -- What the books depend on.
  abbrev pub core : AppState D F → Map (Orderbook D) × Map ℕ × FaultInjector
  core s = (s.orderbooks, s.depths, s.fault_injector)

  note_resync-core :
      (f : Float F) (clock : LogClock) (symbol : String) (s : AppState D F)
      → core (note_resync f clock symbol s) ≡ core s
  unfolding note_resync
  note_resync-core f clock symbol s = elim (Bool-cases (can_resync clock.resync_asked symbol s)) [
    | inl e ↦ rw e refl
    | inr e ↦ rw e refl
  ]

  record_if_enabled-core :
      (now : ℕ) (raw : String) (s : AppState D F) → core (record_if_enabled now raw s) ≡ core s
  unfolding record_if_enabled
  record_if_enabled-core now raw s = ground arith

  buffer_frame-core :
      (raw : String) (o : Option String) (s : AppState D F) → core (buffer_frame raw o s) ≡ core s
  unfolding get_or_create_frame_buffer
  buffer_frame-core raw none s = refl
  buffer_frame-core raw (some symbol) s = refl

module _ {D F N : Type 0} ⦃d : Decimal D⦄ (tools : Tools D F N) where
  capture-core :
      (clock : LogClock) (symbol : String) (expected : ℕ) (l : LoggedState D F N)
      → core (capture tools clock symbol expected l).state ≡ core l.state
  unfolding capture get_or_create_frame_buffer set_last_incident push_event
  capture-core clock symbol expected l = note_resync-core tools.float clock symbol _

  judge-core :
      (clock : LogClock) (symbol : String) (expected : ℕ) (ok : Bool) (proof : IntegrityProof D)
      (l : LoggedState D F N)
      → core (judge tools clock symbol expected (ok, proof) l).state ≡ core l.state
  unfolding judge_health push_event
  judge-core clock symbol expected true proof l = refl
  judge-core clock symbol expected false proof l = capture-core clock symbol expected _

  verify_with-core :
      (clock : LogClock) (symbol : String) (book : Orderbook D) (expected : ℕ)
      (o : Option (InstrumentInfo D)) (l : LoggedState D F N)
      → core (verify_with tools clock symbol book expected o l).state ≡ core l.state
  verify_with-core clock symbol book expected none l = refl
  verify_with-core clock symbol book expected (some inst) l = judge-core clock symbol expected _ _ l

  verify_book-core :
      (clock : LogClock) (symbol : String) (book : Orderbook D) (checksum : Option ℕ)
      (l : LoggedState D F N)
      → core (verify_book tools clock symbol book checksum l).state ≡ core l.state
  verify_book-core clock symbol book none l = refl
  verify_book-core clock symbol book (some expected) l =
      verify_with-core clock symbol book expected (get symbol l.state.instruments) l

  -- An update leaves the injector as it is.
  pub update_book-injector :
      (clock : LogClock) (at : String) (bids asks : List (Level D)) (checksum : Option ℕ)
      (o : Option (Orderbook D)) (l : LoggedState D F N)
      → (update_book tools clock at bids asks checksum o l).state.fault_injector
        ≡ l.state.fault_injector
  unfolding store_book
  update_book-injector clock at bids asks checksum none l = refl
  update_book-injector clock at bids asks checksum (some old) l =
      ap (λ c. c.2)
        (verify_book-core clock at (updated_book at bids asks old l.state) checksum
          (put_book at (updated_book at bids asks old l.state) l))

module _ {D F : Type 0} ⦃d : Decimal D⦄ where
  -- The step from `s` to `t` made of the book of `symbol` what the event says, and armed no fault.
  abbrev Steps : String → WsEvent D → AppState D F → AppState D F → Type 0
  Steps symbol e s t =
      (get symbol t.orderbooks ≡ book_step (get_depth symbol s) symbol e (get symbol s.orderbooks))
      × (t.depths ≡ s.depths)
      × (t.fault_injector.enabled ≡ false)

consume_off : (i : FaultInjector) → i.enabled ≡ false → consume i ≡ (none, i)
unfolding consume
consume_off i h = ground arith

module _ {D F N : Type 0} ⦃d : Decimal D⦄ (tools : Tools D F N) (symbol : String) where
  on_snapshot-Steps :
      (clock : LogClock) (at : String) (bids asks : List (Level D)) (checksum : Option ℕ)
      (l : LoggedState D F N)
      → l.state.fault_injector.enabled ≡ false
      → Steps symbol
          (book_snapshot at bids asks checksum)
          l.state
          (on_snapshot tools clock at bids asks checksum l).state
  unfolding on_snapshot push_event store_book snapshot_book get_depth
  on_snapshot-Steps clock at bids asks checksum l h =
      let logged = record l { state = push_event clock.first_log subscribed_book l.state } in
      let book = snapshot_book at bids asks logged.state in
      let c = verify_book-core tools clock at book checksum logged in
      (
        ap (λ c. get symbol (insert at book c.0)) c
            ∙ ground (arith, get-insert at symbol book l.state.orderbooks, eq_iff at symbol),
        ap (λ c. c.1) c,
        ap (λ c. c.2.enabled) c ∙ h,
      )

  update_book-Steps :
      (clock : LogClock) (at : String) (bids asks : List (Level D)) (checksum : Option ℕ)
      (ts : Option String) (o : Option (Orderbook D)) (l : LoggedState D F N)
      → get at l.state.orderbooks ≡ o
      → l.state.fault_injector.enabled ≡ false
      → Steps symbol
          (book_update at bids asks checksum ts)
          l.state
          (update_book tools clock at bids asks checksum o l).state
  unfolding store_book updated_book get_depth
  update_book-Steps clock at bids asks checksum ts none l e h =
      (ground (arith, eq_iff at symbol), refl, h)
  update_book-Steps clock at bids asks checksum ts (some old) l e h =
      let book = updated_book at bids asks old l.state in
      let c = verify_book-core tools clock at book checksum (put_book at book l) in
      (
        ap (λ c. get symbol c.0) c
            ∙ ground (arith, get-insert at symbol book l.state.orderbooks, eq_iff at symbol),
        ap (λ c. c.1) c,
        ap (λ c. c.2.enabled) c ∙ h,
      )

  on_update-Steps :
      (clock : LogClock) (at : String) (bids asks : List (Level D)) (checksum : Option ℕ)
      (ts : Option String) (l : LoggedState D F N)
      → l.state.fault_injector.enabled ≡ false
      → Steps symbol
          (book_update at bids asks checksum ts)
          l.state
          (on_update tools clock at bids asks checksum l).state
  unfolding on_update apply_update
  on_update-Steps clock at bids asks checksum ts l h =
      rw (consume_off l.state.fault_injector h)
        (update_book-Steps clock at bids asks checksum ts (get at l.state.orderbooks) l refl h)

  event-Steps :
      (clock : LogClock) (e : WsEvent D) (l : LoggedState D F N)
      → l.state.fault_injector.enabled ≡ false
      → Steps symbol e l.state (process_event tools clock e l).state
  unfolding process_event on_frame push_event store_instruments store_frame
  event-Steps clock (book_snapshot at bids asks checksum) l h =
      on_snapshot-Steps clock at bids asks checksum l h
  event-Steps clock (book_update at bids asks checksum ts) l h =
      on_update-Steps clock at bids asks checksum ts l h
  event-Steps clock (frame raw) l h =
      let stored =
        store_frame clock.base.stored raw (record_if_enabled clock.state_recorded raw l.state) in
      let c =
        buffer_frame-core raw
          (((tools.from_str raw >>= get_json "data") >>= get_json "symbol") >>= as_str) stored
        ∙ record_if_enabled-core clock.state_recorded raw l.state in
      (ap (λ c. get symbol c.0) c, ap (λ c. c.1) c, ap (λ c. c.2.enabled) c ∙ h)
  event-Steps clock connected l h = (refl, refl, h)
  event-Steps clock disconnected l h = (refl, refl, h)
  event-Steps clock rate_limit_exceeded l h = (refl, refl, h)
  event-Steps clock (error e) l h = (refl, refl, h)
  event-Steps clock (instrument_snapshot infos) l h = (refl, refl, h)

  -- Started with no fault armed, the logging loop makes of each symbol's book what the events of that
  -- symbol say, at the depth of the symbol: a snapshot replaces the book and an update changes the
  -- book there is. Checksums, mismatches, other symbols and all other events do not touch it.
  pub get-process_ws_events :
      (es : List (LogClock × WsEvent D)) (l : LoggedState D F N)
      → l.state.fault_injector.enabled ≡ false
      → get symbol (process_ws_events tools es l).state.orderbooks
        ≡ book_after
            (get_depth symbol l.state)
            symbol
            (map (λ e. e.1) es)
            (get symbol l.state.orderbooks)
  unfolding process_ws_events book_after get_depth
  get-process_ws_events [] l h = refl
  get-process_ws_events ((clock, e) ∷ es) l h =
      let s = event-Steps clock e l h in
      get-process_ws_events es (process_event tools clock e l) s.2
      ∙ ap₂ (λ m o. book_after (get_or 100 symbol m) symbol (map (λ e. e.1) es) o) s.1 s.0

  -- Started with no fault armed and with no book of the symbol, or with one that is valid and within
  -- the symbol's depth, the logging loop keeps the book of the symbol, if it has one, valid (both
  -- sides in order, no quantity zero) and no deeper than the symbol's depth.
  pub process_ws_events-IsKept :
      (es : List (LogClock × WsEvent D)) (l : LoggedState D F N)
      → l.state.fault_injector.enabled ≡ false
      → IsKept (get_depth symbol l.state) (get symbol l.state.orderbooks)
      → IsKept
          (get_depth symbol l.state)
          (get symbol (process_ws_events tools es l).state.orderbooks)
  process_ws_events-IsKept es l h k =
      subst (IsKept (get_depth symbol l.state)) (sym (get-process_ws_events es l h)) (
        book_after-IsKept (get_depth symbol l.state) symbol (map (λ e. e.1) es)
          (get symbol l.state.orderbooks) k)
