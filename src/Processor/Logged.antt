-- ===== src/Processor/Logged.antt =====
-- crates/blackbox-server/src/main.rs: `process_ws_events_with_logging`, the loop of the other
-- commands: it logs events, keeps a proof of integrity for each symbol, and injects faults.
pub mod Books
pub mod Verdict
pub mod Fault
pub mod Buffers
use k_blackbox.Base.{
  ℕ, List, [], ◌∷◌, ◌++◌, Bool, true, false, Option, none, some, String, str_eq, trim_front,
  if◌then◌else◌,
}
use k_blackbox.Decimal.{Decimal, Text, Level}
use k_blackbox.Words.{Time, Float, inc_u64}
use k_blackbox.Json.{Value, number, object, end, field, get, as_str, ◌>>=◌}
use k_blackbox.DashMap.{Map, insert, get_or}
use k_blackbox.DashMap
use k_blackbox.Types.{InstrumentInfo}
use k_blackbox.Orderbook.{Orderbook}
use k_blackbox.Health
use k_blackbox.Health.{SymbolHealth}
use k_blackbox.Checksum.{Hasher}
use k_blackbox.Integrity.Injector.{FaultType, mutate_qty, drop_update, consume}
use k_blackbox.Integrity.Proof
use k_blackbox.Integrity.Proof.{IntegrityProof, new_meta}
use k_blackbox.Integrity.Helper.{Readings, update_integrity_proof}
use k_blackbox.Recorder.{Recorder}
use k_blackbox.State.{
  AppState, UiEvent, checksum_ok, resync_started, incident_captured, subscribed_instrument,
  subscribed_book, push_event, can_resync, record_resync, get_or_create_frame_buffer,
  set_last_incident,
}
use k_blackbox.State
use k_blackbox.Incident.{IncidentManager, checksum_mismatch, record_incident}
use k_blackbox.Client.Connection.{
  WsEvent, connected, disconnected, rate_limit_exceeded, frame, error, instrument_snapshot,
  book_snapshot, book_update,
}
use k_blackbox.Processor.Capture.{
  Tools, LogClock, LoggedState, on_frame, capture, judge, verify_with, verify_book, put_book,
}
use k_blackbox.Processor.Defs.{
  Clock, snapshot_book, updated_book, store_book, store_instruments, store_frame, judge_health,
  record_with,
}

module _ {D F N : Type 0} ⦃d : Decimal D⦄ (tools : Tools D F N) where
  unfoldable pub on_snapshot :
      LogClock
      → String
      → List (Level D)
      → List (Level D)
      → Option ℕ
      → LoggedState D F N
      → LoggedState D F N
  unfolding capture
  on_snapshot clock symbol bids asks checksum l =
      let logged = record l { state = push_event clock.first_log subscribed_book l.state } in
      let book = snapshot_book symbol bids asks logged.state in
      put_book symbol book (verify_book tools clock symbol book checksum logged)

  -- A quantity that prints as a decimal grows by the instrument's increment.
  abbrev pub add_increment : Option (InstrumentInfo D) → Option D → D → D
  add_increment none parsed qty = qty
  add_increment (some inst) none qty = qty
  add_increment (some inst) (some q) qty = d.add q inst.qty_increment

  abbrev pub mutate_first : Option (InstrumentInfo D) → List (Level D) → List (Level D)
  mutate_first inst [] = []
  mutate_first inst ((price, qty) ∷ asks) =
      (price, add_increment inst (tools.parse (d.to_string qty)) qty) ∷ asks

  abbrev pub update_book :
      LogClock
      → String
      → List (Level D)
      → List (Level D)
      → Option ℕ
      → Option (Orderbook D)
      → LoggedState D F N
      → LoggedState D F N
  update_book clock symbol bids asks checksum none l = l
  update_book clock symbol bids asks checksum (some old) l =
      let book = updated_book symbol bids asks old l.state in
      verify_book tools clock symbol book checksum (put_book symbol book l)

  unfoldable pub apply_update :
      LogClock
      → String
      → List (Level D)
      → List (Level D)
      → Option ℕ
      → LoggedState D F N
      → LoggedState D F N
  unfolding capture
  apply_update clock symbol bids asks checksum l =
      update_book clock symbol bids asks checksum (DashMap.get symbol l.state.orderbooks) l

  abbrev pub strike :
      FaultType
      → LogClock
      → String
      → List (Level D)
      → List (Level D)
      → Option ℕ
      → LoggedState D F N
      → LoggedState D F N
  strike mutate_qty clock symbol bids asks checksum l =
      apply_update clock symbol bids (mutate_first (DashMap.get symbol l.state.instruments) asks)
        checksum l
  strike drop_update clock symbol bids asks checksum l = l

  -- What `consume` handed out is looked at only after it is gone.
  abbrev pub with_fault :
      Option (String × FaultType)
      → LogClock
      → String
      → List (Level D)
      → List (Level D)
      → Option ℕ
      → LoggedState D F N
      → LoggedState D F N
  with_fault none clock symbol bids asks checksum l = apply_update clock symbol bids asks checksum l
  with_fault (some (target, fault)) clock symbol bids asks checksum l =
      if str_eq target symbol
      then strike fault clock symbol bids asks checksum l
      else apply_update clock symbol bids asks checksum l

  unfoldable pub on_update :
      LogClock
      → String
      → List (Level D)
      → List (Level D)
      → Option ℕ
      → LoggedState D F N
      → LoggedState D F N
  unfolding apply_update
  on_update clock symbol bids asks checksum l =
      let (fault, injector) = consume l.state.fault_injector in
      with_fault fault clock symbol bids asks checksum
        (record l { state = record l.state { fault_injector = injector } })

  abbrev pub log : Time → UiEvent → LoggedState D F N → LoggedState D F N
  log now e l = record l { state = push_event now e l.state }

  unfoldable pub process_event : LogClock → WsEvent D → LoggedState D F N → LoggedState D F N
  unfolding on_frame on_snapshot on_update
  process_event clock connected l = log clock.first_log State.connected l
  process_event clock disconnected l = log clock.first_log State.disconnected l
  process_event clock (frame raw) l = on_frame tools clock raw l
  process_event clock (instrument_snapshot infos) l =
      let logged = log clock.first_log subscribed_instrument l in
      record logged { state = store_instruments infos logged.state }
  process_event clock (book_snapshot symbol bids asks checksum) l =
      on_snapshot clock symbol bids asks checksum l
  process_event clock (book_update symbol bids asks checksum ts) l =
      on_update clock symbol bids asks checksum l
  process_event clock (error e) l = l
  process_event clock rate_limit_exceeded l = log clock.first_log State.disconnected l

  unfoldable pub process_ws_events :
      List (LogClock × WsEvent D) → LoggedState D F N → LoggedState D F N
  unfolding process_event
  process_ws_events [] l = l
  process_ws_events ((clock, e) ∷ es) l = process_ws_events es (process_event clock e l)
