-- ===== src/Tasks/Verdicts.antt =====
-- crates/blackbox-server/src/main.rs: checking a book keeps the shared state sound, whatever the verdict.
use k_blackbox.Base.{
  ℕ, ◌≤◌, [], ◌∷◌, ◌++◌, length, Bool, Option, none, some, String, ◌==◌, length-trim_front,
  holds_if,
}
use k_blackbox.Decimal.{Decimal}
use k_blackbox.Words.{Float}
use k_blackbox.Json.{number, object, end, field}
use k_blackbox.DashMap.{insert, get_or}
use k_blackbox.DashMap
use k_blackbox.DashMap.Every.{Every-insert}
use k_blackbox.Types.{InstrumentInfo}
use k_blackbox.Orderbook.{Orderbook}
use k_blackbox.Integrity.Proof
use k_blackbox.Integrity.Proof.{IntegrityProof, record_latency, new_meta}
use k_blackbox.Checksum.{Hasher, compute_crc32, build_checksum_string}
use k_blackbox.Incident.{checksum_mismatch, record_incident}
use k_blackbox.Integrity.Helper.{Readings, elapsed_ms, update_integrity_proof}
use k_blackbox.State.{
  AppState, can_resync, record_resync, push_event, get_or_create_frame_buffer, set_last_incident,
  resync_started, incident_captured, subscribed_book, subscribed_instrument, get_depth,
}
use k_blackbox.State
use k_blackbox.Processor.Defs.{judge_health}
use k_blackbox.Processor.Capture.{
  Tools, LogClock, LoggedState, count_resync, note_resync, capture, judge, verify_with, verify_book,
}
use k_blackbox.Tasks.Sound.{IsSound, push_event-IsSound, buffer-IsSound}

module _ {D F : Type 0} ⦃d : Decimal D⦄ where
  note_resync-IsSound :
      (f : Float F) (clock : LogClock) (symbol : String) (s : AppState D F)
      → IsSound s
      → IsSound (note_resync f clock symbol s)
  unfolding note_resync
  note_resync-IsSound f clock symbol s v =
      holds_if IsSound (can_resync clock.resync_asked symbol s) _ s
        (push_event-IsSound clock.resync_log (resync_started symbol)
          (count_resync f symbol (record_resync clock.resync_noted symbol s)) v)
        v

latencies_kept :
    {D : Type 0} ⦃d : Decimal D⦄
    → (h : Hasher) (r : Readings) (p : IntegrityProof D) (book : Orderbook D) (expected pp qp : ℕ)
    → length (update_integrity_proof h r p book expected pp qp).1.latency_history ≤ 1000
unfolding update_integrity_proof record_latency
latencies_kept {D} h r p book expected pp qp =
    let l = length-trim_front 1000 (p.latency_history ++ elapsed_ms r ∷ []) in
    holds_if (λ (x : Bool × IntegrityProof D). length x.1.latency_history ≤ 1000)
      (expected == compute_crc32 h (build_checksum_string book pp qp)) _ _ l l

module _ {D F N : Type 0} ⦃d : Decimal D⦄ (tools : Tools D F N) where
  capture-IsSound :
      (clock : LogClock) (symbol : String) (expected : ℕ) (l : LoggedState D F N)
      → IsSound l.state
      → IsSound (capture tools clock symbol expected l).state
  unfolding capture set_last_incident
  capture-IsSound clock symbol expected l v =
      let logged = push_event clock.verdict_log (State.checksum_mismatch symbol) l.state in
      let noted = note_resync tools.float clock symbol logged in
      let (incident, manager) =
        record_incident tools.format_id clock.base.incident_id clock.base.incident checksum_mismatch
          (some symbol) (object (field "expected_checksum" (number (tools.of_u32 expected)) end))
          l.manager in
      push_event-IsSound clock.incident_log (incident_captured incident.id "ChecksumMismatch")
        (set_last_incident (new_meta clock.meta_made incident.id symbol "ChecksumMismatch")
          (get_or_create_frame_buffer symbol noted).1)
        (buffer-IsSound symbol noted (
          note_resync-IsSound tools.float clock symbol logged
            (push_event-IsSound clock.verdict_log (State.checksum_mismatch symbol) l.state v))).1

  judge-IsSound :
      (clock : LogClock) (symbol : String) (expected : ℕ) (verdict : Bool)
      (proof : IntegrityProof D) (l : LoggedState D F N)
      → length proof.latency_history ≤ 1000
      → IsSound l.state
      → IsSound (judge tools clock symbol expected (verdict, proof) l).state
  unfolding judge_health
  judge-IsSound clock symbol expected verdict proof l p v =
      let s = record l.state { integrity_proofs = insert symbol proof l.state.integrity_proofs } in
      let judged : LoggedState D F N = record l {
        state = judge_health tools.float clock.base verdict symbol s;
      } in
      let w : IsSound judged.state = (
        v.0,
        v.1,
        v.2,
        Every-insert (λ (q : IntegrityProof D). length q.latency_history ≤ 1000) symbol proof
            l.state.integrity_proofs p v.3,
        v.4,
        v.5,
      ) in
      holds_if (λ (x : LoggedState D F N). IsSound x.state) verdict _ _
        (push_event-IsSound clock.verdict_log (State.checksum_ok symbol) judged.state w)
        (capture-IsSound clock symbol expected judged w)

  verify_with-IsSound :
      (clock : LogClock) (symbol : String) (book : Orderbook D) (expected : ℕ)
      (inst : Option (InstrumentInfo D)) (l : LoggedState D F N)
      → IsSound l.state
      → IsSound (verify_with tools clock symbol book expected inst l).state
  verify_with-IsSound clock symbol book expected none l v = v
  verify_with-IsSound clock symbol book expected (some inst) l v =
      let old = get_or (Proof.new clock.proof_made) symbol l.state.integrity_proofs in
      let updated =
        update_integrity_proof tools.hasher clock.readings old book expected inst.price_precision
          inst.qty_precision in
      judge-IsSound clock symbol expected updated.0 updated.1 l
        (latencies_kept tools.hasher clock.readings old book expected inst.price_precision
          inst.qty_precision)
        v

  pub verify_book-IsSound :
      (clock : LogClock) (symbol : String) (book : Orderbook D) (checksum : Option ℕ)
      (l : LoggedState D F N)
      → IsSound l.state
      → IsSound (verify_book tools clock symbol book checksum l).state
  verify_book-IsSound clock symbol book none l v = v
  verify_book-IsSound clock symbol book (some expected) l v =
      verify_with-IsSound clock symbol book expected (DashMap.get symbol l.state.instruments) l v
