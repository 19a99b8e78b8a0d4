-- ===== src/Precision/Canonical.antt =====
-- crates/blackbox-core/src/precision.rs: the form of a token of the checksum text.
use k_blackbox.Base.{ℕ, ◌≢◌, [], ◌∷◌, length, All, ◌<◌, arith}
use k_blackbox.Decimal.{Decimal, Text}
use k_blackbox.Precision.{delete, trim_start, or_zero, strip, format_fixed}

-- Not empty, no decimal point, and no leading zero unless it is the one digit "0".
abbrev pub IsCanonical : Text → Type 0
IsCanonical [] = ⊥
IsCanonical (x ∷ []) = x ≢ b'.'
IsCanonical (x ∷ y ∷ s) = (x ≢ b'0') × All (λ c. c ≢ b'.') (x ∷ y ∷ s)

delete_none : (c : ℕ) (s : Text) → All (λ x. x ≢ c) (delete c s)
unfolding delete
delete_none c [] = tt
delete_none c (x ∷ s) = ground (arith, delete_none c s)

trim_start-All : (c k : ℕ) (s : Text) → All (λ x. x ≢ k) s → All (λ x. x ≢ k) (trim_start c s)
unfolding trim_start
trim_start-All c k [] a = tt
trim_start-All c k (x ∷ s) a = ground (arith, trim_start-All c k s a.1)

-- What is left does not begin with the trimmed character.
abbrev NotFirst : ℕ → Text → Type 0
NotFirst c [] = Unit {0}
NotFirst c (x ∷ s) = x ≢ c

trim_start_first : (c : ℕ) (s : Text) → NotFirst c (trim_start c s)
unfolding trim_start
trim_start_first c [] = tt
trim_start_first c (x ∷ s) = ground (arith, trim_start_first c s)

or_zero-IsCanonical : (s : Text) → NotFirst b'0' s → All (λ x. x ≢ b'.') s → IsCanonical (or_zero s)
or_zero-IsCanonical [] f a = omega arith
or_zero-IsCanonical (x ∷ []) f a = a.0
or_zero-IsCanonical (x ∷ y ∷ s) f a = (f, a)

strip-IsCanonical : (s : Text) → IsCanonical (strip s)
unfolding strip
strip-IsCanonical s =
    or_zero-IsCanonical (trim_start b'0' (delete b'.' s)) (trim_start_first b'0' (delete b'.' s))
      (trim_start-All b'0' b'.' (delete b'.' s) (delete_none b'.' s))

module _ {D : Type 0} ⦃d : Decimal D⦄ where
  -- The token of any decimal at any scale is not empty, has no point, and does not begin with a
  -- zero unless it is "0".
  pub format_fixed-IsCanonical : (dec : D) (scale : ℕ) → IsCanonical (format_fixed dec scale)
  unfolding format_fixed
  format_fixed-IsCanonical dec scale = strip-IsCanonical _

  pub length-format_fixed : (dec : D) (scale : ℕ) → 0 < length (format_fixed dec scale)
  length-format_fixed dec scale =
      nonempty (format_fixed dec scale) (format_fixed-IsCanonical dec scale)
    where
      nonempty : (s : Text) → IsCanonical s → 0 < length s
      nonempty [] h = absurd h
      nonempty (x ∷ s) h = omega arith
