-- ===== src/Health/Status.antt =====
-- crates/blackbox-core/src/health.rs: what a status says of the counters.
use k_blackbox.Base.{ℕ, ◌≤◌, ◌≡◌, refl, true, false, Option, none, some, arith}
use k_blackbox.Words.{Time, seconds_since, Float}
use k_blackbox.Health.{SymbolHealth, ok, fail, health_score, status, deduct_fail_rate}

module _ {F : Type 0} (f : Float F) (now : Time) (h : SymbolHealth F) where
  deduct_fail_rate-le : (score : ℕ) → deduct_fail_rate f h score ≤ score
  unfolding deduct_fail_rate
  deduct_fail_rate-le score = ground arith

  -- The score never exceeds 100.
  health_score-le : health_score f now h ≤ 100
  unfolding health_score
  health_score-le = ground (arith, deduct_fail_rate-le 100)

  -- A status Ok means that the symbol is connected, that its last message is at most 60 seconds
  -- old, and that at most two checksums failed in a row.
  pub status_ok :
      status f now h ≡ ok
      → (h.connected ≡ true)
        × ((t : Time) × (h.last_msg_ts ≡ some t) × (seconds_since now t ≤ 60))
        × (h.consecutive_fails ≤ 2)
  unfolding status health_score
  status_ok e = go h.last_msg_ts refl
    where
      go :
          (ts : Option Time)
          → h.last_msg_ts ≡ ts
          → (h.connected ≡ true)
            × ((t : Time) × (h.last_msg_ts ≡ some t) × (seconds_since now t ≤ 60))
            × (h.consecutive_fails ≤ 2)
      go none q = absurd (ground (arith, deduct_fail_rate-le 100))
      go (some t) q =
          let le = deduct_fail_rate-le 100 in
          (ground (arith, le), (t, q, ground (arith, le)), ground (arith, le))

  -- A symbol that is not connected has the status Fail.
  pub status_disconnected : h.connected ≡ false → status f now h ≡ fail
  unfolding status health_score
  status_disconnected e = ground (arith, deduct_fail_rate-le 100)
