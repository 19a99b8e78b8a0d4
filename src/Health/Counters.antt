-- ===== src/Health/Counters.antt =====
-- The counters over a run of verified messages.
use k_blackbox.Base.{
  ◌%◌, ap, ◌∙◌, ℕ, zero, suc, ◌+◌, ◌<◌, ◌≡◌, refl, Bool, true, false, List, [], ◌∷◌, ◌++◌,
  replicate, length, arith,
}
use k_blackbox.Words.{Time, u64_mod, inc_u64}
use k_blackbox.Health.{SymbolHealth, record_checksum_ok, record_checksum_fail}

-- The verdicts of one kind in a run.
pub count : Bool → List Bool → ℕ
count b [] = 0
count true (true ∷ vs) = suc (count true vs)
count true (false ∷ vs) = count true vs
count false (true ∷ vs) = count false vs
count false (false ∷ vs) = suc (count false vs)

module _ {F : Type 0} (now : Time) where
  -- The handlers' branch on the verdict of one message.
  pub record_verdict : Bool → SymbolHealth F → SymbolHealth F
  record_verdict true h = record_checksum_ok h
  record_verdict false h = record_checksum_fail now h

  pub record_verdicts : List Bool → SymbolHealth F → SymbolHealth F
  record_verdicts [] h = h
  record_verdicts (v ∷ vs) h = record_verdicts vs (record_verdict v h)

  record_verdicts-append :
      (us vs : List Bool) (h : SymbolHealth F)
      → record_verdicts (us ++ vs) h ≡ record_verdicts vs (record_verdicts us h)
  unfolding record_verdicts
  record_verdicts-append [] vs h = refl
  record_verdicts-append (u ∷ us) vs h = record_verdicts-append us vs (record_verdict u h)

  fails_in_a_row :
      (n : ℕ) (h : SymbolHealth F)
      → h.consecutive_fails + n < u64_mod
      → (record_verdicts (replicate n false) h).consecutive_fails ≡ h.consecutive_fails + n
  unfolding record_verdicts record_verdict record_checksum_fail inc_u64
  fails_in_a_row zero h b = omega arith
  fails_in_a_row (suc n) h b =
      let e : (h.consecutive_fails + 1) % u64_mod ≡ h.consecutive_fails + 1 = omega arith in
      omega (arith, fails_in_a_row n (record_checksum_fail now h) (omega arith), e)

  -- After any run of verdicts that ends in a pass and then `n` failures, `consecutive_fails` is `n`.
  pub consecutive_fails-run :
      (vs : List Bool) (n : ℕ) (h : SymbolHealth F)
      → n < u64_mod
      → (record_verdicts (vs ++ true ∷ replicate n false) h).consecutive_fails ≡ n
  unfolding record_verdicts record_verdict record_checksum_ok
  consecutive_fails-run vs n h b =
      ap (λ x. x.consecutive_fails) (record_verdicts-append vs (true ∷ replicate n false) h)
      ∙ fails_in_a_row n (record_checksum_ok (record_verdicts vs h)) (omega arith)
      ∙ omega arith

  -- A run adds its passes to `checksum_ok` and its failures to `checksum_fail`, while they fit.
  pub checksum_ok-run :
      (vs : List Bool) (h : SymbolHealth F)
      → h.checksum_ok + length vs < u64_mod
      → h.checksum_fail + length vs < u64_mod
      → ((record_verdicts vs h).checksum_ok ≡ h.checksum_ok + count true vs)
        × ((record_verdicts vs h).checksum_fail ≡ h.checksum_fail + count false vs)
  unfolding record_verdicts record_verdict record_checksum_ok record_checksum_fail inc_u64 count
  checksum_ok-run [] h a b = omega arith
  checksum_ok-run (true ∷ vs) h a b =
      let ih = checksum_ok-run vs (record_checksum_ok h) (omega arith) (omega arith) in
      omega (arith, ih.0, ih.1)
  checksum_ok-run (false ∷ vs) h a b =
      let ih = checksum_ok-run vs (record_checksum_fail now h) (omega arith) (omega arith) in
      omega (arith, ih.0, ih.1)
