-- ===== src/Subscriptions/Depths.antt =====
-- Which depth a request is turned into.
use k_blackbox.Base.{ℕ, ◌≤◌, ◌≡◌, ◌⊎◌, arith}
use k_blackbox.Subscriptions.{normalize_depth}

-- One of the five depths.
abbrev pub IsSupported : ℕ → Type 0
IsSupported n = (n ≡ 10) ⊎ (n ≡ 25) ⊎ (n ≡ 100) ⊎ (n ≡ 500) ⊎ (n ≡ 1000)

-- If some supported depth is not below the request, the depth asked of Kraken is the least such one.
pub normalize_depth-least :
    (depth s : ℕ)
    → IsSupported s
    → depth ≤ s
    → IsSupported (normalize_depth depth)
      × (depth ≤ normalize_depth depth)
      × (normalize_depth depth ≤ s)
unfolding normalize_depth
normalize_depth-least depth s i h = ground arith

normalize_depth-IsSupported : (depth : ℕ) → IsSupported (normalize_depth depth)
unfolding normalize_depth
normalize_depth-IsSupported depth = ground arith

-- Every subscription asks for at least the ten levels that the checksum covers.
pub normalize_depth-ge : (depth : ℕ) → 10 ≤ normalize_depth depth
unfolding normalize_depth
normalize_depth-ge depth = ground arith

normalize_depth_supported : (s : ℕ) → IsSupported s → normalize_depth s ≡ s
unfolding normalize_depth
normalize_depth_supported s i = ground arith

-- A supported depth is asked for as it is, and a second normalization changes nothing.
pub normalize_depth_idem :
    (depth : ℕ) → normalize_depth (normalize_depth depth) ≡ normalize_depth depth
normalize_depth_idem depth =
    normalize_depth_supported (normalize_depth depth) (normalize_depth-IsSupported depth)
