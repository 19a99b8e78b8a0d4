-- ===== src/Precision.antt =====
-- crates/blackbox-core/src/precision.rs: the text of a price or quantity in the checksum, and the
-- lenient parser of decimals. Texts are lists of code points; all of them here are ASCII, so `len`
-- counts what Rust counts in bytes.
pub mod Canonical
pub mod Ticks
use k_blackbox.Base.{
  ℕ, ◌-◌, List, [], ◌∷◌, ◌++◌, Option, none, some, Bool, true, false, ltb, ◌==◌, ◌||◌,
  if◌then◌else◌, length, take, replicate,
}
use k_blackbox.Decimal.{Decimal, Text}

-- std's `contains`, `split`, `replace` by the empty text and `trim_start_matches`, for one character.
unfoldable pub contains : ℕ → Text → Bool
contains c [] = false
contains c (x ∷ s) = (x == c) || contains c s

abbrev pub push_first : ℕ → List Text → List Text
push_first x [] = (x ∷ []) ∷ []
push_first x (p ∷ ps) = (x ∷ p) ∷ ps

unfoldable pub split : ℕ → Text → List Text
split c [] = [] ∷ []
split c (x ∷ s) = if x == c then [] ∷ split c s else push_first x (split c s)

unfoldable pub delete : ℕ → Text → Text
delete c [] = []
delete c (x ∷ s) = if x == c then delete c s else x ∷ delete c s

unfoldable pub trim_start : ℕ → Text → Text
trim_start c [] = []
trim_start c (x ∷ s) = let rest = trim_start c s in if x == c then rest else x ∷ s

-- `parts[0]` and `parts.get(1).unwrap_or(&"")`: `split` gives at least one part.
abbrev pub integer_part : List Text → Text
integer_part [] = []
integer_part (p ∷ ps) = p

abbrev pub decimal_part : List Text → Text
decimal_part [] = []
decimal_part (p ∷ []) = []
decimal_part (p ∷ q ∷ ps) = q

-- Pad with zeros, or cut, to `scale` places.
unfoldable pub pad_decimals : ℕ → Text → Text
pad_decimals scale s =
    if ltb (length s) scale
    then s ++ replicate (scale - length s) b'0'
    else if ltb scale (length s)
    then take scale s
    else s

unfoldable pub fix_places : ℕ → Text → Text
unfolding pad_decimals
fix_places scale s =
    if contains b'.' s
    then integer_part (split b'.' s) ++ (b'.' ∷ pad_decimals scale (decimal_part (split b'.' s)))
    else s ++ (b'.' ∷ replicate scale b'0')

-- The last steps of `format_fixed`: no point, no leading zero, and "0" for what is empty.
abbrev pub or_zero : Text → Text
or_zero [] = b'0' ∷ []
or_zero (x ∷ s) = x ∷ s

unfoldable pub strip : Text → Text
strip s = or_zero (trim_start b'0' (delete b'.' s))

module _ {D : Type 0} ⦃d : Decimal D⦄ where
  unfoldable pub format_fixed : D → ℕ → Text
  format_fixed dec scale = strip (
      if ltb 0 scale
      then fix_places scale (d.to_string (d.round_dp dec scale))
      else d.to_string dec)

-- The numbers of std and of the dependency that `parse_decimal` tries in turn.
pub record DecimalParser (D F : Type 0) : Type 0 where
  pub from_str : Text → Option D
  pub parse_f64 : Text → Option F
  pub display_f64 : F → Text
  pub from_str_exact : Text → Option D
  pub try_from : F → Option D

pub data ParseError : Type 0 where
  conversion invalid_format : Text → ParseError

pub data ParseResult (D : Type 0) : Type 0 where
  ok : D → ParseResult D
  err : ParseError → ParseResult D

module _ {D F : Type 0} (p : DecimalParser D F) where
  -- The branch for scientific notation: by way of an f64.
  unfoldable pub parse_by_f64 : Text → ParseResult D
  parse_by_f64 s = elim (p.parse_f64 s) [
    | none ↦ err (invalid_format s)
    | some f ↦ elim (p.from_str_exact (p.display_f64 f)) [
      | some dec ↦ ok dec
      | none ↦ elim (p.try_from f) [ some dec ↦ ok dec | none ↦ err (conversion s) ]
    ]
  ]

  unfoldable pub parse_decimal : Text → ParseResult D
  parse_decimal s = elim (p.from_str s) [ some dec ↦ ok dec | none ↦ parse_by_f64 s ]
