-- ===== src/Integrity/Helper.antt =====
-- crates/blackbox-server/src/integrity/checksum_helper.rs: verify the book and note how it went.
use k_blackbox.Base.{
  ℕ, ◌-◌, ◌/◌, ◌++◌, ap, ◌≡◌, Bool, true, false, some, ◌==◌, take, length, if◌then◌else◌, arith,
}
use k_blackbox.Decimal.{Decimal, Text}
use k_blackbox.Words.{Time}
use k_blackbox.Orderbook.{Orderbook, asks_vec, bids_vec}
use k_blackbox.Checksum.{Hasher, compute_crc32, build_checksum_string, verify_checksum}
use k_blackbox.Checksum.Levels.{level_text, build_checksum_string-eq}
use k_blackbox.Integrity.Proof.{IntegrityProof, record_latency, is_match}

-- What the call reads of the clocks: the `Instant` at its start and after the checksum, and the time
-- at the verification and at a mismatch.
pub record Readings : Type 0 where
  pub started : Time
  pub computed : Time
  pub verified : Time
  pub mismatched : Time

abbrev pub elapsed_ms : Readings → ℕ
elapsed_ms r = (r.computed - r.started) / 1000000

module _ {D : Type 0} ⦃d : Decimal D⦄ (h : Hasher) where
  -- The fields that are set on every path.
  unfoldable pub set_proof :
      Readings → IntegrityProof D → Orderbook D → ℕ → Text → ℕ → IntegrityProof D
  set_proof r p book expected text computed = record (record_latency (elapsed_ms r) p) {
    expected_checksum = expected;
    computed_checksum = computed;
    checksum_preview = take 64 text;
    checksum_len = length text;
    top_asks = asks_vec book (some 10);
    top_bids = bids_vec book (some 10);
    last_verify_ts = r.verified;
  }

  -- The verdict and the proof after it. The metric is output only.
  unfoldable pub update_integrity_proof :
      Readings → IntegrityProof D → Orderbook D → ℕ → ℕ → ℕ → Bool × IntegrityProof D
  unfolding set_proof
  update_integrity_proof r p book expected price_precision qty_precision =
      let text = build_checksum_string book price_precision qty_precision in
      let computed = compute_crc32 h text in
      let q = set_proof r p book expected text computed in
      if expected == computed then (true, q) else (
        false,
        record q { last_mismatch_ts = some r.mismatched; diagnosis = some (expected, computed) },
      )

  -- The verdict is that of `verify_checksum`, and agrees with `is_match` of the new proof. The proof
  -- holds the levels that the checksum text was built from; a mismatch replaces its diagnosis, and a
  -- match leaves the old diagnosis in place.
  pub update_integrity_proof_lem :
      (r : Readings) (p : IntegrityProof D) (book : Orderbook D) (expected pp qp : ℕ)
      → let (verdict, q) = update_integrity_proof r p book expected pp qp in
        (verdict ≡ verify_checksum h book expected pp qp)
        × (is_match q ≡ verdict)
        × (q.computed_checksum
            ≡ compute_crc32 h (level_text pp qp q.top_asks ++ level_text pp qp q.top_bids))
        × (q.diagnosis ≡ (if verdict then p.diagnosis else some (expected, q.computed_checksum)))
  unfolding update_integrity_proof verify_checksum is_match record_latency
  update_integrity_proof_lem r p book expected pp qp =
      let e = ap (compute_crc32 h) (build_checksum_string-eq book pp qp) in
      (ground arith, ground arith, ground (arith, e), ground arith)
