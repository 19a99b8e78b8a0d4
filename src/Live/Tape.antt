-- ===== src/Live/Tape.antt =====
-- crates/blackbox-server/src/main.rs: what the loop with logging does to the recording.
use k_blackbox.Base.{
  ℕ, ◌≡◌, refl, ap, sym, ◌∙◌, List, [], ◌∷◌, ◌++◌, map, Bool, true, Option, none, some, String,
  str_eq, holds_if,
}
use k_blackbox.Decimal.{Decimal, Level}
use k_blackbox.Words.{Time, Float}
use k_blackbox.DashMap
use k_blackbox.Types.{InstrumentInfo, RecordedFrame}
use k_blackbox.Recorder.{Recorder, record_frame, record_frames}
use k_blackbox.Orderbook.{Orderbook}
use k_blackbox.Integrity.Injector.{FaultType, mutate_qty, drop_update, consume}
use k_blackbox.Integrity.Proof.{IntegrityProof}
use k_blackbox.State.{
  AppState, can_resync, push_event, record_resync, get_or_create_frame_buffer, set_last_incident,
}
use k_blackbox.State
use k_blackbox.Client.Connection.{
  WsEvent, connected, disconnected, rate_limit_exceeded, frame, error, instrument_snapshot,
  book_snapshot, book_update,
}
use k_blackbox.Client.Forwarded.{frame_of}
use k_blackbox.Processor.Defs.{
  store_book, store_instruments, store_frame, judge_health, record_with, snapshot_book,
  updated_book,
}
use k_blackbox.Processor.Capture.{
  Tools, LogClock, LoggedState, record_if_enabled, buffer_frame, note_resync, on_frame, capture,
  judge, verify_with, verify_book, put_book,
}
use k_blackbox.Processor.Logged.{
  on_snapshot, update_book, apply_update, with_fault, on_update, process_event, process_ws_events,
}

-- Whether the recording is on, and its recorder.
abbrev pub tape : {D F : Type 0} → AppState D F → Bool × Option Recorder
tape s = (s.recording_enabled, s.recorder)

abbrev TapeIs : {D F N : Type 0} → Bool × Option Recorder → LoggedState D F N → Type 0
TapeIs t l = tape l.state ≡ t

buffer_frame-tape :
    {D F : Type 0} (raw : String) (symbol : Option String) (s : AppState D F)
    → tape (buffer_frame raw symbol s) ≡ tape s
unfolding get_or_create_frame_buffer
buffer_frame-tape raw none s = refl
buffer_frame-tape raw (some symbol) s = refl

note_resync-tape :
    {D F : Type 0} (f : Float F) (clock : LogClock) (symbol : String) (s : AppState D F)
    → tape (note_resync f clock symbol s) ≡ tape s
unfolding note_resync push_event record_resync
note_resync-tape f clock symbol s =
    holds_if (λ s'. tape s' ≡ tape s) (can_resync clock.resync_asked symbol s) _ s refl refl

record_if_enabled-tape :
    {D F : Type 0} (now : Time) (raw : String) (s : AppState D F) (r : Recorder)
    → tape s ≡ (true, some r)
    → tape (record_if_enabled now raw s) ≡ (true, some (record_frame now raw none r))
unfolding record_if_enabled
record_if_enabled-tape now raw s r h =
    rw (ap (λ t. t.0) h) (ap (λ o. (true, record_with now raw o)) (ap (λ t. t.1) h))

module _ {D F N : Type 0} ⦃d : Decimal D⦄ (tools : Tools D F N) where
  capture-tape :
      (clock : LogClock) (symbol : String) (expected : ℕ) (l : LoggedState D F N)
      → TapeIs (tape l.state) (capture tools clock symbol expected l)
  unfolding capture push_event set_last_incident get_or_create_frame_buffer
  capture-tape clock symbol expected l =
      note_resync-tape tools.float clock symbol
        (push_event clock.verdict_log (State.checksum_mismatch symbol) l.state)

  judge-tape :
      (clock : LogClock) (symbol : String) (expected : ℕ) (verdict : Bool)
      (proof : IntegrityProof D) (l : LoggedState D F N)
      → TapeIs (tape l.state) (judge tools clock symbol expected (verdict, proof) l)
  unfolding judge_health push_event
  judge-tape clock symbol expected verdict proof l =
      holds_if (TapeIs (tape l.state)) verdict _ _ refl (capture-tape clock symbol expected _)

  verify_with-tape :
      (clock : LogClock) (symbol : String) (book : Orderbook D) (expected : ℕ)
      (inst : Option (InstrumentInfo D)) (l : LoggedState D F N)
      → TapeIs (tape l.state) (verify_with tools clock symbol book expected inst l)
  verify_with-tape clock symbol book expected none l = refl
  verify_with-tape clock symbol book expected (some inst) l = judge-tape clock symbol expected _ _ l

  verify_book-tape :
      (clock : LogClock) (symbol : String) (book : Orderbook D) (checksum : Option ℕ)
      (l : LoggedState D F N)
      → TapeIs (tape l.state) (verify_book tools clock symbol book checksum l)
  verify_book-tape clock symbol book none l = refl
  verify_book-tape clock symbol book (some expected) l =
      verify_with-tape clock symbol book expected (DashMap.get symbol l.state.instruments) l

  update_book-tape :
      (clock : LogClock) (symbol : String) (bids asks : List (Level D)) (checksum : Option ℕ)
      (old : Option (Orderbook D)) (l : LoggedState D F N)
      → TapeIs (tape l.state) (update_book tools clock symbol bids asks checksum old l)
  unfolding store_book
  update_book-tape clock symbol bids asks checksum none l = refl
  update_book-tape clock symbol bids asks checksum (some old) l =
      let book = updated_book symbol bids asks old l.state in
      verify_book-tape clock symbol book checksum (put_book symbol book l)

  apply_update-tape :
      (clock : LogClock) (symbol : String) (bids asks : List (Level D)) (checksum : Option ℕ)
      (l : LoggedState D F N)
      → TapeIs (tape l.state) (apply_update tools clock symbol bids asks checksum l)
  unfolding apply_update
  apply_update-tape clock symbol bids asks checksum l =
      update_book-tape clock symbol bids asks checksum (DashMap.get symbol l.state.orderbooks) l

  with_fault-tape :
      (fault : Option (String × FaultType)) (clock : LogClock) (symbol : String)
      (bids asks : List (Level D)) (checksum : Option ℕ) (l : LoggedState D F N)
      → TapeIs (tape l.state) (with_fault tools fault clock symbol bids asks checksum l)
  with_fault-tape none clock symbol bids asks checksum l =
      apply_update-tape clock symbol bids asks checksum l
  with_fault-tape (some (target, mutate_qty)) clock symbol bids asks checksum l =
      holds_if (TapeIs (tape l.state)) (str_eq target symbol) _ _
        (apply_update-tape clock symbol bids _ checksum l)
        (apply_update-tape clock symbol bids asks checksum l)
  with_fault-tape (some (target, drop_update)) clock symbol bids asks checksum l =
      holds_if (TapeIs (tape l.state)) (str_eq target symbol) _ _ refl
        (apply_update-tape clock symbol bids asks checksum l)

  on_snapshot-tape :
      (clock : LogClock) (symbol : String) (bids asks : List (Level D)) (checksum : Option ℕ)
      (l : LoggedState D F N)
      → TapeIs (tape l.state) (on_snapshot tools clock symbol bids asks checksum l)
  unfolding on_snapshot store_book push_event
  on_snapshot-tape clock symbol bids asks checksum l =
      let logged : LoggedState D F N = record l {
        state = push_event clock.first_log State.subscribed_book l.state;
      } in
      verify_book-tape clock symbol (snapshot_book symbol bids asks logged.state) checksum logged

abbrev pub at_time : LogClock → String → RecordedFrame
at_time clock raw = record { ts = clock.state_recorded; raw_frame = raw; decoded_event = none }

-- What the events leave in the recording while it is on.
abbrev pub recorded : {D : Type 0} → List (LogClock × WsEvent D) → List RecordedFrame
recorded [] = []
recorded ((clock, e) ∷ es) = map (at_time clock) (frame_of e) ++ recorded es

record_frames-append :
    (xs ys : List RecordedFrame) (r : Recorder)
    → record_frames (xs ++ ys) r ≡ record_frames ys (record_frames xs r)
unfolding record_frames
record_frames-append [] ys r = refl
record_frames-append (x ∷ xs) ys r =
    record_frames-append xs ys (record_frame x.ts x.raw_frame x.decoded_event r)

module _ {D F N : Type 0} ⦃d : Decimal D⦄ (tools : Tools D F N) where
  event-tape :
      (clock : LogClock) (e : WsEvent D) (l : LoggedState D F N) (r : Recorder)
      → tape l.state ≡ (true, some r)
      → TapeIs
          (true, some (record_frames (map (at_time clock) (frame_of e)) r))
          (process_event tools clock e l)
  unfolding process_event on_update on_frame store_instruments store_frame push_event
      record_if_enabled record_frames
  event-tape clock connected l r h = h
  event-tape clock disconnected l r h = h
  event-tape clock (frame raw) l r h =
      buffer_frame-tape raw _
        (store_frame clock.base.stored raw (record_if_enabled clock.state_recorded raw l.state))
      ∙ record_if_enabled-tape clock.state_recorded raw l.state r h
  event-tape clock (instrument_snapshot infos) l r h = h
  event-tape clock (book_snapshot symbol bids asks checksum) l r h =
      on_snapshot-tape tools clock symbol bids asks checksum l ∙ h
  event-tape clock (book_update symbol bids asks checksum ts) l r h =
      with_fault-tape tools (consume l.state.fault_injector).0 clock symbol bids asks checksum _ ∙ h
  event-tape clock (error e) l r h = h
  event-tape clock rate_limit_exceeded l r h = h

  -- The recorder after a run of events is that of the frames among them.
  pub process_ws_events-tape :
      (es : List (LogClock × WsEvent D)) (l : LoggedState D F N) (r : Recorder)
      → tape l.state ≡ (true, some r)
      → tape (process_ws_events tools es l).state ≡ (true, some (record_frames (recorded es) r))
  unfolding process_ws_events record_frames
  process_ws_events-tape [] l r h = h
  process_ws_events-tape ((clock, e) ∷ es) l r h =
      let here = map (at_time clock) (frame_of e) in
      process_ws_events-tape es (process_event tools clock e l) (record_frames here r)
        (event-tape clock e l r h)
      ∙ ap (λ q. (true, some q)) (sym (record_frames-append here (recorded es) r))
