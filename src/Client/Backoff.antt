-- ===== src/Client/Backoff.antt =====
-- crates/blackbox-ws/src/client.rs: `run`, the delays between connections, in milliseconds, and the
-- generator behind the jitter.
use k_blackbox.Base.{
  ℕ, zero, suc, ◌+◌, ◌*◌, ◌%◌, ◌^◌, ◌≤◌, ◌<◌, ◌≡◌, min, List, [], ◌∷◌, Bool, true, false, replicate,
  All, if◌then◌else◌, arith,
}
use k_blackbox.Words.{u64_mod, inc_u64}

abbrev pub initial_reconnect_delay : ℕ
initial_reconnect_delay = 1000

abbrev pub max_reconnect_delay : ℕ
max_reconnect_delay = 300000

-- `rand::random` of the file: the number is the new seed.
unfoldable pub random : ℕ → ℕ
random seed = (seed * 1103515245 % u64_mod + 12345) % u64_mod

pub record Reconnect : Type 0 where
  pub reconnect_delay : ℕ
  pub reconnect_count : ℕ
  pub seed : ℕ

unfoldable pub start : ℕ → Reconnect
start seed = record { reconnect_delay = initial_reconnect_delay; reconnect_count = 0; seed = seed }

-- One turn of `run`, after a connection that ended well or with an error: the delay that it sleeps,
-- and the state after it.
unfoldable pub reconnect : Bool → Reconnect → ℕ × Reconnect
unfolding random inc_u64
reconnect ended_well r =
    let base : ℕ = if ended_well then initial_reconnect_delay else r.reconnect_delay in
    let seed : ℕ = random r.seed in
    (
      base + seed % 1000,
      record {
        reconnect_delay = min (base * 2) max_reconnect_delay;
        reconnect_count = inc_u64 r.reconnect_count;
        seed = seed;
      },
    )

unfoldable pub run : List Bool → Reconnect → List ℕ × Reconnect
unfolding reconnect
run [] r = ([], r)
run (e ∷ es) r = let later = run es (reconnect e r).1 in ((reconnect e r).0 ∷ later.0, later.1)

abbrev InRange : Reconnect → Type 0
InRange r = (1000 ≤ r.reconnect_delay) × (r.reconnect_delay ≤ 300000)

abbrev Delay : ℕ → Type 0
Delay d = (1000 ≤ d) × (d < 301000)

reconnect-InRange :
    (e : Bool) (r : Reconnect) → InRange r → Delay (reconnect e r).0 × InRange (reconnect e r).1
unfolding reconnect
reconnect-InRange e r h = ground arith

run-InRange : (es : List Bool) (r : Reconnect) → InRange r → All Delay (run es r).0
unfolding run
run-InRange [] r h = tt
run-InRange (e ∷ es) r h =
    let k = reconnect-InRange e r h in (k.0, run-InRange es (reconnect e r).1 k.1)

-- However the connections end, each delay that the loop of `run` sleeps is at least one second and
-- less than 301 seconds.
pub delays-in_range :
    (es : List Bool) (seed : ℕ) → All (λ (d : ℕ). (1000 ≤ d) × (d < 301000)) (run es (start seed)).0
unfolding start
delays-in_range es seed = run-InRange es (start seed) (omega arith)

pow_suc : (k : ℕ) → 2 ^ suc k ≡ 2 * 2 ^ k
pow_suc k = omega arith

shift_suc : (k n : ℕ) → suc k + n ≡ k + suc n
shift_suc k n = omega arith

failures-delay :
    (n k : ℕ) (r : Reconnect)
    → r.reconnect_delay ≡ min (1000 * 2 ^ k) 300000
    → (run (replicate n false) r).1.reconnect_delay ≡ min (1000 * 2 ^ (k + n)) 300000
unfolding run reconnect
failures-delay zero k r h = let e : k + 0 ≡ k = omega arith in rw e h
failures-delay (suc n) k r h =
    rw (← shift_suc k n) (failures-delay n (suc k) (reconnect false r).1 (omega (arith, pow_suc k)))

-- After a connection that ended well and `n` that failed, the next failure sleeps, up to a jitter of
-- less than a second, 2 ^ (n + 1) seconds, or 300 seconds if that is less; a connection that ends
-- well brings the sleep back to one second.
pub backoff_doubles :
    (n : ℕ) (r : Reconnect)
    → let base = min (1000 * 2 ^ (1 + n)) 300000 in
      let r' = (run (true ∷ replicate n false) r).1 in
      (base ≤ (reconnect false r').0)
      × ((reconnect false r').0 < base + 1000)
      × (1000 ≤ (reconnect true r').0)
      × ((reconnect true r').0 < 2000)
unfolding run reconnect
backoff_doubles n r = omega (arith, failures-delay n 1 (reconnect true r).1 (omega arith))
