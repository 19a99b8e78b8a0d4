-- ===== src/Processor/Capture.antt =====
-- crates/blackbox-server/src/main.rs: what `process_ws_events_with_logging` does with a frame
-- and with a book that came with a checksum.
use k_blackbox.Base.{ℕ, [], ◌∷◌, ◌++◌, Bool, Option, none, some, String, trim_front, if◌then◌else◌}
use k_blackbox.Decimal.{Decimal, Text}
use k_blackbox.Words.{Time, Float, inc_u64}
use k_blackbox.Json.{Value, number, object, end, field, get, as_str, ◌>>=◌}
use k_blackbox.DashMap.{Map, insert, get_or}
use k_blackbox.DashMap
use k_blackbox.Types.{InstrumentInfo}
use k_blackbox.Orderbook.{Orderbook}
use k_blackbox.Health
use k_blackbox.Health.{SymbolHealth}
use k_blackbox.Checksum.{Hasher}
use k_blackbox.Integrity.Proof
use k_blackbox.Integrity.Proof.{IntegrityProof, new_meta}
use k_blackbox.Integrity.Helper.{Readings, update_integrity_proof}
use k_blackbox.Recorder.{Recorder}
use k_blackbox.State.{
  AppState, UiEvent, checksum_ok, resync_started, incident_captured, subscribed_instrument,
  subscribed_book, push_event, can_resync, record_resync, get_or_create_frame_buffer,
  set_last_incident,
}
use k_blackbox.State
use k_blackbox.Incident.{IncidentManager, checksum_mismatch, record_incident}
use k_blackbox.Processor.Defs.{Clock, store_book, store_frame, judge_health, record_with}

-- What the loop takes from its dependencies: floats, CRC-32, JSON and decimals as texts.
pub record Tools (D F N : Type 0) : Type 1 where
  pub float : Float F
  pub hasher : Hasher
  pub of_u32 : ℕ → N
  pub from_str : String → Option (Value N)
  pub parse : Text → Option D
  pub format_id : ℕ → String → String

-- What one event reads of the clock besides.
pub record LogClock : Type 0 where
  pub base : Clock
  pub state_recorded : Time
  pub first_log : Time
  pub proof_made : Time
  pub readings : Readings
  pub verdict_log : Time
  pub resync_asked : Time
  pub resync_noted : Time
  pub resync_log : Time
  pub meta_made : Time
  pub incident_log : Time

pub record LoggedState (D F N : Type 0) : Type 0 where
  pub state : AppState D F
  pub manager : IncidentManager N
  pub recorder : Option Recorder

module _ {D F : Type 0} where
  -- The recorder that the terminal switches on and off.
  unfoldable pub record_if_enabled : Time → String → AppState D F → AppState D F
  record_if_enabled now raw s =
      if s.recording_enabled then record s { recorder = record_with now raw s.recorder } else s

  abbrev pub buffer_frame : String → Option String → AppState D F → AppState D F
  buffer_frame raw none s = s
  buffer_frame raw (some symbol) s =
      let (buffer, s') = get_or_create_frame_buffer symbol s in
      record s' {
        per_symbol_frames =
            insert symbol (trim_front 2000 (buffer ++ raw ∷ [])) s'.per_symbol_frames;
      }

  abbrev pub count_resync : Float F → String → AppState D F → AppState D F
  count_resync f symbol s =
      let h = get_or (Health.new f symbol) symbol s.health in
      record s {
        health = insert symbol (record h { reconnect_count = inc_u64 h.reconnect_count }) s.health;
      }

  -- The resync that is only noted: the counter of reconnections and an event.
  unfoldable pub note_resync : Float F → LogClock → String → AppState D F → AppState D F
  unfolding can_resync record_resync push_event
  note_resync f clock symbol s =
      if can_resync clock.resync_asked symbol s
      then push_event clock.resync_log (resync_started symbol)
          (count_resync f symbol (record_resync clock.resync_noted symbol s))
      else s

module _ {D F N : Type 0} where
  abbrev pub put_book : String → Orderbook D → LoggedState D F N → LoggedState D F N
  put_book symbol book l = record l { state = store_book symbol book l.state }

module _ {D F N : Type 0} ⦃d : Decimal D⦄ (tools : Tools D F N) where
  unfoldable pub on_frame : LogClock → String → LoggedState D F N → LoggedState D F N
  unfolding record_if_enabled
  on_frame clock raw l =
      let stored =
        store_frame clock.base.stored raw (record_if_enabled clock.state_recorded raw l.state) in
      record l {
        recorder = record_with clock.base.recorded raw l.recorder;
        state =
            buffer_frame raw (((tools.from_str raw >>= get "data") >>= get "symbol") >>= as_str)
              stored;
      }

  -- The branch of a mismatch, after the health.
  unfoldable pub capture : LogClock → String → ℕ → LoggedState D F N → LoggedState D F N
  unfolding note_resync
  capture clock symbol expected l =
      let noted =
        note_resync tools.float clock symbol
          (push_event clock.verdict_log (State.checksum_mismatch symbol) l.state) in
      let (incident, manager) =
        record_incident tools.format_id clock.base.incident_id clock.base.incident checksum_mismatch
          (some symbol) (object (field "expected_checksum" (number (tools.of_u32 expected)) end))
          l.manager in
      let (frames, buffered) = get_or_create_frame_buffer symbol noted in
      let captured =
        set_last_incident (new_meta clock.meta_made incident.id symbol "ChecksumMismatch")
          buffered in
      record l {
        manager = manager;
        state =
            push_event clock.incident_log (incident_captured incident.id "ChecksumMismatch")
              captured;
      }

  -- The verdict goes to the proof's state, the health, the log and, if it is a mismatch, an incident.
  abbrev pub judge :
      LogClock → String → ℕ → Bool × IntegrityProof D → LoggedState D F N → LoggedState D F N
  judge clock symbol expected (is_valid, proof) l =
      let s = record l.state { integrity_proofs = insert symbol proof l.state.integrity_proofs } in
      let judged = record l { state = judge_health tools.float clock.base is_valid symbol s } in
      if is_valid
      then record judged { state = push_event clock.verdict_log (checksum_ok symbol) judged.state }
      else capture clock symbol expected judged

  abbrev pub verify_with :
      LogClock
      → String
      → Orderbook D
      → ℕ
      → Option (InstrumentInfo D)
      → LoggedState D F N
      → LoggedState D F N
  verify_with clock symbol book expected none l = l
  verify_with clock symbol book expected (some inst) l =
      judge clock symbol expected
        (update_integrity_proof tools.hasher clock.readings
          (get_or (Proof.new clock.proof_made) symbol l.state.integrity_proofs) book expected
          inst.price_precision inst.qty_precision)
        l

  abbrev pub verify_book :
      LogClock → String → Orderbook D → Option ℕ → LoggedState D F N → LoggedState D F N
  verify_book clock symbol book none l = l
  verify_book clock symbol book (some expected) l =
      verify_with clock symbol book expected (DashMap.get symbol l.state.instruments) l
