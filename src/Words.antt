-- ===== src/Words.antt =====
-- Machine words, times and floats, as the program uses them.
use k_blackbox.Base.{ℕ, ◌+◌, ◌-◌, ◌/◌, ◌%◌, ◌<◌, ◌≡◌, Bool, arith}

abbrev pub u64_mod : ℕ
u64_mod = 18446744073709551616

-- `n += 1` on a u64, with the wrap-around of a release build.
unfoldable pub inc_u64 : ℕ → ℕ
inc_u64 n = (n + 1) % u64_mod

-- `a.saturating_sub(b)`.
abbrev pub saturating_sub : ℕ → ℕ → ℕ
saturating_sub a b = a - b

pub inc_u64_small : (n : ℕ) → n + 1 < u64_mod → inc_u64 n ≡ n + 1
unfolding inc_u64
inc_u64_small n h = omega arith

-- A time, of either clock, in nanoseconds.
abbrev pub Time : Type 0
Time = ℕ

-- The whole seconds from `earlier` to `now`. Where `now` is the earlier of the two, the source has a
-- number that is not positive; here it is 0, and no test of the program tells the two apart.
abbrev pub seconds_since : Time → Time → ℕ
seconds_since now earlier = (now - earlier) / 1000000000

-- `f64`, a parameter: its values, the conversions and the operations that the program applies.
pub record Float (F : Type 0) : Type 0 where
  pub of_u64 : ℕ → F
  pub one : F
  pub one_hundredth : F
  pub hundred : F
  pub zero : F
  pub add : F → F → F
  pub sub : F → F → F
  pub mul : F → F → F
  pub div : F → F → F
  pub fmax : F → F → F
  pub lt : F → F → Bool
  -- `as u8` and `as usize`: truncated and saturated.
  pub to_u8 : F → ℕ
  pub to_usize : F → ℕ
