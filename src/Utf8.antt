-- ===== src/Utf8.antt =====
-- The byte lengths of texts and the slices that the program takes by bytes, `str::len` and `&s[..n]`.
use k_blackbox.Base.{
  ℕ, zero, suc, ◌+◌, ◌-◌, ◌≤◌, ◌<◌, ◌≢◌, [], ◌∷◌, All, Option, none, some, ltb, ◌==◌, if◌then◌else◌,
  arith,
}
use k_blackbox.Decimal.{Text}

-- The bytes of a character in UTF-8.
abbrev pub utf8_len : ℕ → ℕ
utf8_len c = if ltb c 0x80 then 1 else if ltb c 0x800 then 2 else if ltb c 0x10000 then 3 else 4

unfoldable pub byte_len : Text → ℕ
byte_len [] = 0
byte_len (c ∷ cs) = utf8_len c + byte_len cs

abbrev pub cons_to : ℕ → Option Text → Option Text
cons_to c none = none
cons_to c (some cs) = some (c ∷ cs)

-- `&text[..n]`: the first `n` bytes. It panics, which is `none`, if that cuts a character.
unfoldable pub slice_to : ℕ → Text → Option Text
slice_to n [] = if n == 0 then some [] else none
slice_to n (c ∷ cs) =
    let rest = slice_to (n - utf8_len c) cs in
    if n == 0 then some [] else if ltb n (utf8_len c) then none else cons_to c rest

abbrev pub IsAscii : Text → Type 0
IsAscii t = All (λ c. c < 0x80) t

pub slice_to-ascii : (n : ℕ) (t : Text) → IsAscii t → n ≤ byte_len t → slice_to n t ≢ none
unfolding slice_to byte_len
slice_to-ascii n [] a h = ground arith
slice_to-ascii zero (c ∷ cs) a h = λ e. cc
slice_to-ascii (suc n) (c ∷ cs) a h = ground (arith, slice_to-ascii n cs a.1)
