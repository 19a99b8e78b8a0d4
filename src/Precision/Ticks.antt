-- ===== src/Precision/Ticks.antt =====
-- What the token of a decimal stands for: the number of ticks of 10 ^ -scale.
use native.Mathlib.Nat.{pow-suc}
use k_blackbox.Base.{
  ℕ, zero, suc, ◌+◌, ◌-◌, ◌*◌, ◌^◌, ◌≤◌, ◌<◌, ◌≡◌, ◌≢◌, refl, sym, ap, ◌∙◌, [], ◌∷◌, ◌++◌, true,
  false, ◌==◌, length, All, All-append, inl, inr, Bool-cases, arith, ==_iff, ◌⊎◌, lt→ltb, ltb,
  replicate, append-nil, append_assoc,
}
use k_blackbox.Decimal.{Decimal, Text}
use k_blackbox.Precision.{
  contains, split, delete, trim_start, or_zero, strip, format_fixed, fix_places, pad_decimals,
}

-- The number that a text of digits stands for.
value_from : ℕ → Text → ℕ
value_from acc [] = acc
value_from acc (c ∷ s) = value_from (10 * acc + (c - b'0')) s

pub value : Text → ℕ
unfolding value_from
value s = value_from 0 s

abbrev pub IsDigits : Text → Type 0
IsDigits s = All (λ c. (b'0' ≤ c) × (c ≤ b'9')) s

value_from-append :
    (acc : ℕ) (s t : Text) → value_from acc (s ++ t) ≡ value_from (value_from acc s) t
unfolding value_from
value_from-append acc [] t = refl
value_from-append acc (c ∷ s) t = value_from-append (10 * acc + (c - b'0')) s t

value_from-zeros : (n acc : ℕ) → value_from acc (replicate n b'0') ≡ acc * 10 ^ n
unfolding value_from
value_from-zeros zero acc = omega arith
value_from-zeros (suc n) acc =
    let z : 10 * acc + 0 ≡ 10 * acc = omega arith in
    ap (λ x. value_from x (replicate n b'0')) z
    ∙ value_from-zeros n (10 * acc)
    ∙ rw (pow-suc 10 n) (omega arith)

value_from-trim_start : (s : Text) → value_from 0 (trim_start b'0' s) ≡ value_from 0 s
unfolding value_from trim_start
value_from-trim_start [] = refl
value_from-trim_start (c ∷ s) = elim (Bool-cases (c == b'0')) [
  | inl h ↦
      let e : c ≡ b'0' = (==_iff c b'0').0 h in
      rw h (value_from-trim_start s ∙ ap (λ x. value_from x s) (omega arith))
  | inr h ↦ rw h
]

value-or_zero : (s : Text) → value_from 0 (or_zero s) ≡ value_from 0 s
unfolding value_from
value-or_zero [] = refl
value-or_zero (x ∷ s) = refl

delete-All : (c : ℕ) (s : Text) → All (λ x. x ≢ c) s → delete c s ≡ s
unfolding delete
delete-All c [] a = refl
delete-All c (x ∷ s) a = ground (arith, delete-All c s a.1)

delete-append : (c : ℕ) (s t : Text) → delete c (s ++ t) ≡ delete c s ++ delete c t
unfolding delete
delete-append c [] t = refl
delete-append c (x ∷ s) t = ground (arith, delete-append c s t)

-- A decimal printed with a point, and one printed without.
contains_point : (c : ℕ) (s t : Text) → contains c (s ++ c ∷ t) ≡ true
unfolding contains
contains_point c [] t = ground arith
contains_point c (x ∷ s) t = ground (arith, contains_point c s t)

contains_none : (c : ℕ) (s : Text) → All (λ x. x ≢ c) s → contains c s ≡ false
unfolding contains
contains_none c [] a = refl
contains_none c (x ∷ s) a = ground (arith, contains_none c s a.1)

split_none : (c : ℕ) (s : Text) → All (λ x. x ≢ c) s → split c s ≡ s ∷ []
unfolding split
split_none c [] a = refl
split_none c (x ∷ s) a = ground (arith, split_none c s a.1)

split_point :
    (c : ℕ) (s t : Text)
    → All (λ x. x ≢ c) s
    → All (λ x. x ≢ c) t
    → split c (s ++ c ∷ t) ≡ s ∷ t ∷ []
unfolding split
split_point c [] t a b = ground (arith, split_none c t b)
split_point c (x ∷ s) t a b = ground (arith, split_point c s t a.1 b)

no_point : (s : Text) → IsDigits s → All (λ x. x ≢ b'.') s
no_point [] h = tt
no_point (x ∷ s) h = (omega arith, no_point s h.1)

-- How a decimal prints: digits, and then perhaps a point and further digits, at most `scale`.
pub record PrintsAs (scale : ℕ) (s whole fraction : Text) : Type 0 where
  pub whole_digits : IsDigits whole
  pub fraction_digits : IsDigits fraction
  pub fits : length fraction ≤ scale
  pub form : ((s ≡ whole) × (fraction ≡ [])) ⊎ (s ≡ whole ++ b'.' ∷ fraction)

-- Padding makes the fraction exactly `scale` digits long.
pad_decimals_short :
    (scale : ℕ) (s : Text)
    → length s ≤ scale
    → pad_decimals scale s ≡ s ++ replicate (scale - length s) b'0'
unfolding pad_decimals
pad_decimals_short scale s h = elim (Bool-cases (ltb (length s) scale)) [
  | inl k ↦ rw k
  | inr k ↦
      let e : ltb scale (length s) ≡ false = ground arith in
      let z : scale - length s ≡ 0 = ground arith in rw (k, e, z) (sym (append-nil s))
]

fix_places_point :
    (scale : ℕ) (s whole fraction : Text)
    → PrintsAs scale s whole fraction
    → s ≡ whole ++ b'.' ∷ fraction
    → fix_places scale s ≡ whole ++ (b'.' ∷ (fraction ++ replicate (scale - length fraction) b'0'))
unfolding fix_places
fix_places_point scale s whole fraction p e = rw (
  e,
  contains_point b'.' whole fraction,
  split_point b'.' whole fraction (no_point whole p.whole_digits)
      (no_point fraction p.fraction_digits),
  pad_decimals_short scale fraction p.fits,
)

value-strip : (s : Text) → value_from 0 (strip s) ≡ value_from 0 (delete b'.' s)
unfolding strip
value-strip s =
    value-or_zero (trim_start b'0' (delete b'.' s)) ∙ value_from-trim_start (delete b'.' s)

fix_places_plain :
    (scale : ℕ) (s : Text)
    → All (λ x. x ≢ b'.') s
    → fix_places scale s ≡ s ++ (b'.' ∷ replicate scale b'0')
unfolding fix_places
fix_places_plain scale s a = rw (contains_none b'.' s a)

zeros_no_point : (n : ℕ) → All (λ (x : ℕ). x ≢ b'.') (replicate n b'0')
zeros_no_point zero = tt
zeros_no_point (suc n) = (omega arith, zeros_no_point n)

delete_pointed :
    (s t : Text)
    → All (λ x. x ≢ b'.') s
    → All (λ x. x ≢ b'.') t
    → delete b'.' (s ++ b'.' ∷ t) ≡ s ++ t
unfolding delete
delete_pointed [] t a b = ground (arith, delete-All b'.' t b)
delete_pointed (x ∷ s) t a b = ground (arith, delete_pointed s t a.1 b)

-- Without its point the fixed text is the digits and the padding.
delete-fix_places :
    (scale : ℕ) (s whole fraction : Text)
    → PrintsAs scale s whole fraction
    → delete b'.' (fix_places scale s)
      ≡ (whole ++ fraction) ++ replicate (scale - length fraction) b'0'
delete-fix_places scale s whole fraction p = go p.form
  where
    zeros : Text
    zeros = replicate (scale - length fraction) b'0'

    go :
        ((s ≡ whole) × (fraction ≡ [])) ⊎ (s ≡ whole ++ b'.' ∷ fraction)
        → delete b'.' (fix_places scale s) ≡ (whole ++ fraction) ++ zeros
    go (inl (e, f)) =
        let z : scale - 0 ≡ scale = omega arith in
        let a : All (λ x. x ≢ b'.') s = rw e (no_point whole p.whole_digits) in
        ap (delete b'.') (fix_places_plain scale s a)
        ∙ delete_pointed s (replicate scale b'0') a (zeros_no_point scale)
        ∙ rw (e, f, append-nil whole, z)
    go (inr e) =
        ap (delete b'.') (fix_places_point scale s whole fraction p e)
        ∙ delete_pointed whole _ (no_point whole p.whole_digits) (
            All-append (λ x. x ≢ b'.') fraction zeros (no_point fraction p.fraction_digits)
              (zeros_no_point (scale - length fraction)))
        ∙ sym (append_assoc whole fraction zeros)

module _ {D : Type 0} ⦃d : Decimal D⦄ where
  -- If a decimal, rounded to `scale` decimals, prints as digits with at most `scale` of them behind
  -- the point, and `scale` is above zero, then its token stands for the rounded decimal times
  -- 10 ^ scale.
  pub value-format_fixed :
      (dec : D) (scale : ℕ) (whole fraction : Text)
      → 0 < scale
      → PrintsAs scale (d.to_string (d.round_dp dec scale)) whole fraction
      → value (format_fixed dec scale) ≡ value (whole ++ fraction) * 10 ^ (scale - length fraction)
  unfolding value format_fixed
  value-format_fixed dec scale whole fraction h p = rw (lt→ltb 0 scale h) (
      value-strip _
      ∙ ap (value_from 0) (delete-fix_places scale _ whole fraction p)
      ∙ value_from-append 0 (whole ++ fraction) _
      ∙ value_from-zeros (scale - length fraction) _)
