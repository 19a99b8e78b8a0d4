-- ===== src/Processor/Logged/Verdict.antt =====
-- crates/blackbox-server/src/main.rs: what the verdict on a book does to the counters of the symbol,
-- its proof of integrity and the incidents.
use k_blackbox.Base.{
  ℕ, ◌+◌, ◌≡◌, refl, ap, ◌∙◌, List, [], ◌∷◌, ◌++◌, length, length-append, Bool, true, false,
  Bool-cases, inl, inr, some, String, if◌then◌else◌, arith,
}
use k_blackbox.Decimal.{Decimal}
use k_blackbox.Words.{Float, inc_u64}
use k_blackbox.DashMap.{get, insert, get_or, get_or-insert_self, get-insert_self}
use k_blackbox.Types.{InstrumentInfo}
use k_blackbox.Orderbook.{Orderbook}
use k_blackbox.Health
use k_blackbox.Health.{SymbolHealth, record_message, record_checksum_ok, record_checksum_fail}
use k_blackbox.Checksum.{verify_checksum}
use k_blackbox.Integrity.Proof.{IntegrityProof, is_match}
use k_blackbox.Integrity.Proof
use k_blackbox.Integrity.Helper.{update_integrity_proof, update_integrity_proof_lem}
use k_blackbox.State.{
  AppState, checksum_mismatch, push_event, can_resync, record_resync, get_or_create_frame_buffer,
  set_last_incident,
}
use k_blackbox.Incident.{record_incident}
use k_blackbox.Processor.Defs.{Clock, judge_health}
use k_blackbox.Processor.Capture.{
  Tools, LogClock, LoggedState, note_resync, capture, judge, verify_book,
}

-- The counters after one more verdict.
abbrev pub counted : Bool → ℕ × ℕ × ℕ → ℕ × ℕ × ℕ
counted true (ok, fail, run) = (inc_u64 ok, fail, 0)
counted false (ok, fail, run) = (ok, inc_u64 fail, inc_u64 run)

module _ {D F : Type 0} (f : Float F) (symbol : String) where
  -- The symbol's counters: verified, failed, and failed in a row.
  abbrev pub counts : AppState D F → ℕ × ℕ × ℕ
  counts s =
      let h = get_or (Health.new f symbol) symbol s.health in
      (h.checksum_ok, h.checksum_fail, h.consecutive_fails)

module _ {D F : Type 0} (f : Float F) (symbol : String) where
  judge_health-counts :
      (clock : Clock) (ok : Bool) (s : AppState D F)
      → counts f symbol (judge_health f clock ok symbol s) ≡ counted ok (counts f symbol s)
  unfolding judge_health record_message record_checksum_ok record_checksum_fail
  judge_health-counts clock true s = rw get_or-insert_self refl
  judge_health-counts clock false s = rw get_or-insert_self refl

  note_resync-counts :
      (clock : LogClock) (s : AppState D F)
      → counts f symbol (note_resync f clock symbol s) ≡ counts f symbol s
  unfolding note_resync push_event record_resync
  note_resync-counts clock s = elim (Bool-cases (can_resync clock.resync_asked symbol s)) [
    | inl e ↦ rw e (rw get_or-insert_self refl)
    | inr e ↦ rw e refl
  ]

  note_resync-proofs :
      (clock : LogClock) (s : AppState D F)
      → (note_resync f clock symbol s).integrity_proofs ≡ s.integrity_proofs
  unfolding note_resync push_event record_resync
  note_resync-proofs clock s = elim (Bool-cases (can_resync clock.resync_asked symbol s)) [
    | inl e ↦ rw e refl
    | inr e ↦ rw e refl
  ]

length-snoc : {A : Type 0} (xs : List A) (x : A) → length (xs ++ x ∷ []) ≡ length xs + 1
length-snoc xs x = omega (arith, length-append xs (x ∷ []))

module _ {D F N : Type 0} ⦃d : Decimal D⦄ (tools : Tools D F N) where
  -- The verdict `ok` is counted, and the incident is recorded if there was a mismatch.
  abbrev pub Judged : String → Bool → LoggedState D F N → LoggedState D F N → Type 0
  Judged symbol ok l l' =
      (counts tools.float symbol l'.state ≡ counted ok (counts tools.float symbol l.state))
      × (length l'.manager.incidents ≡ length l.manager.incidents + (if ok then 0 else 1))

  judge-Judged :
      (clock : LogClock) (symbol : String) (expected : ℕ) (ok : Bool) (proof : IntegrityProof D)
      (l : LoggedState D F N)
      → Judged symbol ok l (judge tools clock symbol expected (ok, proof) l)
        × (get symbol (judge tools clock symbol expected (ok, proof) l).state.integrity_proofs
            ≡ some proof)
  unfolding push_event capture get_or_create_frame_buffer set_last_incident record_incident
      judge_health
  judge-Judged clock symbol expected true proof l =
      let s = record l.state { integrity_proofs = insert symbol proof l.state.integrity_proofs } in
      (
        (judge_health-counts tools.float symbol clock.base true s, omega arith),
        get-insert_self symbol proof l.state.integrity_proofs,
      )
  judge-Judged clock symbol expected false proof l =
      let s = record l.state { integrity_proofs = insert symbol proof l.state.integrity_proofs } in
      let judged =
        push_event clock.verdict_log (checksum_mismatch symbol)
          (judge_health tools.float clock.base false symbol s) in
      (
        (
          note_resync-counts tools.float symbol clock judged
              ∙ judge_health-counts tools.float symbol clock.base false s,
          length-snoc l.manager.incidents _,
        ),
        ap (get symbol) (note_resync-proofs tools.float symbol clock judged)
            ∙ get-insert_self symbol proof l.state.integrity_proofs,
      )

  -- A book with a checksum whose instrument is known is judged by `verify_checksum`. The verdict is
  -- counted in the health of the symbol (a match ends the run of failures), a mismatch adds exactly
  -- one incident and a match none, and the stored proof of the symbol shows the same verdict.
  pub verify_book_verdict :
      (clock : LogClock) (symbol : String) (book : Orderbook D) (expected : ℕ)
      (inst : InstrumentInfo D) (l : LoggedState D F N)
      → get symbol l.state.instruments ≡ some inst
      → let ok =
          verify_checksum tools.hasher book expected inst.price_precision inst.qty_precision in
        let l' = verify_book tools clock symbol book (some expected) l in
        Judged symbol ok l l'
        × (proof : IntegrityProof D) × (get symbol l'.state.integrity_proofs ≡ some proof)
        × (is_match proof ≡ ok)
  verify_book_verdict clock symbol book expected inst l e =
      let old = get_or (Proof.new clock.proof_made) symbol l.state.integrity_proofs in
      let pp = inst.price_precision in
      let qp = inst.qty_precision in
      let (ok, proof) =
        update_integrity_proof tools.hasher clock.readings old book expected pp qp in
      let same = update_integrity_proof_lem tools.hasher clock.readings old book expected pp qp in
      let j = judge-Judged clock symbol expected ok proof l in
      rw e (rw (← same.0) (j.0, proof, j.1, same.1))
