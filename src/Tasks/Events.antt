-- ===== src/Tasks/Events.antt =====
-- crates/blackbox-server/src/main.rs: what `process_ws_events_with_logging` does to the bounds of
-- the shared state.
use k_blackbox.Base.{ℕ, List, Option, none, some, String, str_eq, holds_if}
use k_blackbox.Decimal.{Decimal, Level}
use k_blackbox.DashMap.{insert, get_or}
use k_blackbox.DashMap
use k_blackbox.DashMap.Every.{IfSome, Every-get}
use k_blackbox.Orderbook.{Orderbook, apply_snapshot, apply_updates, truncate}
use k_blackbox.Orderbook
use k_blackbox.Orderbook.Invariant.{
  IsValid, apply_snapshot-IsValid, apply_updates-IsValid, truncate-IsValid,
}
use k_blackbox.Integrity.Injector.{FaultType, mutate_qty, drop_update, consume}
use k_blackbox.State.{
  AppState, can_resync, record_resync, push_event, get_or_create_frame_buffer, set_last_incident,
  resync_started, incident_captured, subscribed_book, subscribed_instrument, get_depth,
}
use k_blackbox.State
use k_blackbox.Client.Connection.{
  WsEvent, connected, disconnected, rate_limit_exceeded, frame, error, instrument_snapshot,
  book_snapshot, book_update,
}
use k_blackbox.Processor.Defs.{snapshot_book, updated_book, store_instruments, store_frame}
use k_blackbox.Processor.Capture.{
  Tools, LogClock, LoggedState, record_if_enabled, on_frame, verify_book, put_book,
}
use k_blackbox.Processor.Logged.{
  on_snapshot, update_book, apply_update, with_fault, on_update, process_event,
}
use k_blackbox.Tasks.Sound.{
  IsSound, push_event-IsSound, store_book-IsSound, store_frame-IsSound, buffer_frame-IsSound,
  record_if_enabled-IsSound,
}
use k_blackbox.Tasks.Verdicts.{verify_book-IsSound}

module _ {D F : Type 0} ⦃d : Decimal D⦄ where
  updated_book-IsValid :
      (symbol : String) (bids asks : List (Level D)) (book : Orderbook D) (s : AppState D F)
      → IsValid book
      → IsValid (updated_book symbol bids asks book s)
  unfolding updated_book
  updated_book-IsValid symbol bids asks book s b =
      truncate-IsValid (get_depth symbol s) (apply_updates book bids asks)
        (apply_updates-IsValid book bids asks b)

  snapshot_book-IsValid :
      (symbol : String) (bids asks : List (Level D)) (s : AppState D F)
      → IsValid (snapshot_book symbol bids asks s)
  unfolding snapshot_book
  snapshot_book-IsValid symbol bids asks s =
      truncate-IsValid (get_depth symbol s) (apply_snapshot Orderbook.new bids asks)
        (apply_snapshot-IsValid Orderbook.new bids asks)

module _ {D F N : Type 0} ⦃d : Decimal D⦄ (tools : Tools D F N) where
  update_book-IsSound :
      (clock : LogClock) (symbol : String) (bids asks : List (Level D)) (checksum : Option ℕ)
      (old : Option (Orderbook D)) (l : LoggedState D F N)
      → IfSome IsValid old
      → IsSound l.state
      → IsSound (update_book tools clock symbol bids asks checksum old l).state
  update_book-IsSound clock symbol bids asks checksum none l b v = v
  update_book-IsSound clock symbol bids asks checksum (some old) l b v =
      let book = updated_book symbol bids asks old l.state in
      verify_book-IsSound tools clock symbol book checksum (put_book symbol book l) (
        store_book-IsSound symbol book l.state (updated_book-IsValid symbol bids asks old l.state b)
          v)

  apply_update-IsSound :
      (clock : LogClock) (symbol : String) (bids asks : List (Level D)) (checksum : Option ℕ)
      (l : LoggedState D F N)
      → IsSound l.state
      → IsSound (apply_update tools clock symbol bids asks checksum l).state
  unfolding apply_update
  apply_update-IsSound clock symbol bids asks checksum l v =
      update_book-IsSound clock symbol bids asks checksum (DashMap.get symbol l.state.orderbooks) l
        (Every-get IsValid symbol l.state.orderbooks v.4) v

  with_fault-IsSound :
      (fault : Option (String × FaultType)) (clock : LogClock) (symbol : String)
      (bids asks : List (Level D)) (checksum : Option ℕ) (l : LoggedState D F N)
      → IsSound l.state
      → IsSound (with_fault tools fault clock symbol bids asks checksum l).state
  with_fault-IsSound none clock symbol bids asks checksum l v =
      apply_update-IsSound clock symbol bids asks checksum l v
  with_fault-IsSound (some (target, mutate_qty)) clock symbol bids asks checksum l v =
      holds_if (λ (x : LoggedState D F N). IsSound x.state) (str_eq target symbol) _ _
        (apply_update-IsSound clock symbol bids _ checksum l v)
        (apply_update-IsSound clock symbol bids asks checksum l v)
  with_fault-IsSound (some (target, drop_update)) clock symbol bids asks checksum l v =
      holds_if (λ (x : LoggedState D F N). IsSound x.state) (str_eq target symbol) _ _ v
        (apply_update-IsSound clock symbol bids asks checksum l v)

  on_snapshot-IsSound :
      (clock : LogClock) (symbol : String) (bids asks : List (Level D)) (checksum : Option ℕ)
      (l : LoggedState D F N)
      → IsSound l.state
      → IsSound (on_snapshot tools clock symbol bids asks checksum l).state
  unfolding on_snapshot
  on_snapshot-IsSound clock symbol bids asks checksum l v =
      let logged : LoggedState D F N = record l {
        state = push_event clock.first_log subscribed_book l.state;
      } in
      let book = snapshot_book symbol bids asks logged.state in
      store_book-IsSound symbol book (verify_book tools clock symbol book checksum logged).state
        (snapshot_book-IsValid symbol bids asks logged.state)
        (verify_book-IsSound tools clock symbol book checksum logged
          (push_event-IsSound clock.first_log subscribed_book l.state v))

  on_frame-IsSound :
      (clock : LogClock) (raw : String) (l : LoggedState D F N)
      → IsSound l.state
      → IsSound (on_frame tools clock raw l).state
  unfolding on_frame
  on_frame-IsSound clock raw l v =
      let recorded = record_if_enabled clock.state_recorded raw l.state in
      buffer_frame-IsSound raw _ (store_frame clock.base.stored raw recorded) (
        store_frame-IsSound clock.base.stored raw recorded
          (record_if_enabled-IsSound clock.state_recorded raw l.state v))

  -- Handling an event keeps the shared state sound, whatever the event and the faults.
  pub process_event-IsSound :
      (clock : LogClock) (e : WsEvent D) (l : LoggedState D F N)
      → IsSound l.state
      → IsSound (process_event tools clock e l).state
  unfolding process_event on_update store_instruments
  process_event-IsSound clock connected l v =
      push_event-IsSound clock.first_log State.connected l.state v
  process_event-IsSound clock disconnected l v =
      push_event-IsSound clock.first_log State.disconnected l.state v
  process_event-IsSound clock (frame raw) l v = on_frame-IsSound clock raw l v
  process_event-IsSound clock (instrument_snapshot infos) l v =
      push_event-IsSound clock.first_log subscribed_instrument l.state v
  process_event-IsSound clock (book_snapshot symbol bids asks checksum) l v =
      on_snapshot-IsSound clock symbol bids asks checksum l v
  process_event-IsSound clock (book_update symbol bids asks checksum ts) l v =
      with_fault-IsSound (consume l.state.fault_injector).0 clock symbol bids asks checksum _ v
  process_event-IsSound clock (error e) l v = v
  process_event-IsSound clock rate_limit_exceeded l v =
      push_event-IsSound clock.first_log State.disconnected l.state v
