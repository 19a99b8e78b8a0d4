-- ===== src/Cli/Durations.antt =====
-- crates/blackbox-server/src/main.rs: `parse_duration` with and without a unit.
use k_blackbox.Base.{
  ℕ, ◌-◌, ◌≡◌, refl, sym, ap, ◌∙◌, List, [], ◌∷◌, ◌++◌, length, length-append, take, take_append,
  take_all, get_last?, true, false, none, some, ◌==◌, All, arith,
}
use k_blackbox.Decimal.{Text}
use k_blackbox.Cli.{is_digit, parse_u64, ends_with, times, parse_duration}

module _ {A : Type 0} where
  get_last?-snoc : (xs : List A) (x : A) → get_last? (xs ++ x ∷ []) ≡ some x
  get_last?-snoc [] x = refl
  get_last?-snoc (y ∷ []) x = refl
  get_last?-snoc (y ∷ z ∷ zs) x = get_last?-snoc (z ∷ zs) x

  take-snoc : (xs : List A) (x : A) → take (length (xs ++ x ∷ []) - 1) (xs ++ x ∷ []) ≡ xs
  take-snoc xs x =
      ap (λ n. take n (xs ++ x ∷ [])) (omega (arith, length-append xs (x ∷ [])))
      ∙ take_append (length xs) xs (x ∷ []) (omega arith)
      ∙ take_all (length xs) xs (omega arith)

abbrev pub IsDigits : Text → Type 0
IsDigits s = All (λ c. is_digit c ≡ true) s

-- A text of digits ends with no letter.
no_unit : (c : ℕ) (s : Text) → IsDigits s → is_digit c ≡ false → ends_with c s ≡ false
no_unit c [] h n = refl
no_unit c (x ∷ []) h n = ground arith
no_unit c (x ∷ y ∷ s) h n = no_unit c (y ∷ s) h.1 n

ends_with-snoc : (c : ℕ) (s : Text) (x : ℕ) → ends_with c (s ++ x ∷ []) ≡ (x == c)
ends_with-snoc c s x = ap (λ o. elim o [ some y ↦ y == c | none ↦ false ]) (get_last?-snoc s x)

-- Of a text of digits, `s` behind it changes nothing, and `m` behind it makes minutes of the number:
-- sixty times as many seconds, wrapping at 2 ^ 64. Both fail exactly where the digits alone do.
pub parse_duration_units :
    (s : Text)
    → IsDigits s
    → (parse_duration (s ++ b's' ∷ []) ≡ parse_duration s)
      × (parse_duration (s ++ b'm' ∷ []) ≡ times 60 (parse_duration s))
unfolding parse_duration
parse_duration_units s h =
    let plain : parse_duration s ≡ parse_u64 s =
      rw (no_unit b's' s h refl) (rw (no_unit b'm' s h refl) refl) in
    (
      rw (ends_with-snoc b's' s b's') (ap parse_u64 (take-snoc s b's')) ∙ sym plain,
      rw (ends_with-snoc b's' s b'm')
            (rw (ends_with-snoc b'm' s b'm') (ap (λ t. times 60 (parse_u64 t)) (take-snoc s b'm')))
          ∙ ap (times 60) (sym plain),
    )
