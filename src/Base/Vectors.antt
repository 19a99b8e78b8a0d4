-- ===== src/Base/Vectors.antt =====
-- Queues that keep their last entries: `push_back`, then `pop_front` while too long.
use Prim.Native.Nat.{ℕ, zero, suc, ◌+◌, ◌-◌, ◌≤◌, ◌<◌}
use mathlib.Core.Path.{◌≡◌, refl, sym, ap, ◌∙◌}
use mathlib.Core.Logic.{inl, inr}
use mathlib.Core.List.{List, [], ◌∷◌, ◌++◌, append-nil, append_assoc}
use native.Mathlib.Omega.{arith}
use k_blackbox.Base.Tests.{ltb, ltb→lt, if◌then◌else◌, Bool-cases}
use k_blackbox.Base.Lists.{length, drop, length-drop, length-append, drop-append}

module _ {ℓ} {A : Type ℓ} where
  -- `while q.len() > cap { q.pop_front(); }`
  unfoldable pub trim_front : ℕ → List A → List A
  trim_front cap [] = []
  trim_front cap (x ∷ xs) =
      let rest = trim_front cap xs in if ltb cap (suc (length xs)) then rest else x ∷ xs

  -- The loop drops just the excess.
  pub trim_front-eq-drop : (cap : ℕ) (xs : List A) → trim_front cap xs ≡ drop (length xs - cap) xs
  unfolding trim_front
  trim_front-eq-drop cap [] = let e : 0 - cap ≡ 0 = omega arith in rw e refl
  trim_front-eq-drop cap (x ∷ xs) = elim (Bool-cases (ltb cap (suc (length xs)))) [
    | inl h ↦
        let lt : cap < suc (length xs) = ltb→lt _ _ h in
        let e : suc (length xs) - cap ≡ suc (length xs - cap) = omega arith in
        rw (h, e) (trim_front-eq-drop cap xs)
    | inr h ↦ let e : suc (length xs) - cap ≡ 0 = ground arith in rw (h, e) refl
  ]

  pub length-trim_front : (cap : ℕ) (xs : List A) → length (trim_front cap xs) ≤ cap
  length-trim_front cap xs =
      rw (trim_front-eq-drop cap xs) (omega (arith, length-drop (length xs - cap) xs))

  pub trim_front_short : (cap : ℕ) (xs : List A) → length xs ≤ cap → trim_front cap xs ≡ xs
  trim_front_short cap xs h =
      let e : length xs - cap ≡ 0 = omega arith in rw (trim_front-eq-drop cap xs, e) refl

module _ {ℓ} {A : Type ℓ} where
  pub drop-drop : (a b : ℕ) (xs : List A) → drop a (drop b xs) ≡ drop (b + a) xs
  drop-drop a zero xs = let e : 0 + a ≡ a = omega arith in rw e refl
  drop-drop a (suc b) [] = drop_nil a ∙ sym (drop_nil (suc b + a))
    where
      drop_nil : (n : ℕ) → drop {A = A} n [] ≡ []
      drop_nil zero = refl
      drop_nil (suc n) = refl
  drop-drop a (suc b) (x ∷ xs) =
      let e : suc b + a ≡ suc (b + a) = omega arith in rw e (drop-drop a b xs)

  -- Trimming early changes nothing.
  pub trim_front-trim_front :
      (cap : ℕ) (xs ys : List A)
      → trim_front cap (trim_front cap xs ++ ys) ≡ trim_front cap (xs ++ ys)
  trim_front-trim_front cap xs ys =
      rw (trim_front-eq-drop cap xs, trim_front-eq-drop cap (xs ++ ys))
        (trim_front-eq-drop cap (drop k xs ++ ys)
          ∙ ap (λ l. drop (length (drop k xs ++ ys) - cap) l)
              (sym (drop-append k xs ys (omega arith)))
          ∙ drop-drop (length (drop k xs ++ ys) - cap) k (xs ++ ys)
          ∙ ap (λ n. drop n (xs ++ ys)) count)
    where
      k : ℕ
      k = length xs - cap

      count : k + (length (drop k xs ++ ys) - cap) ≡ length (xs ++ ys) - cap
      count = omega (arith, length-append (drop k xs) ys, length-append xs ys, length-drop k xs)

  -- A run of entries pushed on a queue that keeps the last `cap`.
  abbrev pub push_window : ℕ → List A → List A → List A
  push_window cap [] q = q
  push_window cap (x ∷ xs) q = push_window cap xs (trim_front cap (q ++ x ∷ []))

  -- The queue ends as the last `cap` of all the entries.
  pub push_window-eq :
      (cap : ℕ) (xs q : List A) → length q ≤ cap → push_window cap xs q ≡ trim_front cap (q ++ xs)
  push_window-eq cap [] q h = sym (ap (trim_front cap) (append-nil q) ∙ trim_front_short cap q h)
  push_window-eq cap (x ∷ xs) q h =
      push_window-eq cap xs (trim_front cap (q ++ x ∷ [])) (length-trim_front cap _)
      ∙ trim_front-trim_front cap (q ++ x ∷ []) xs
      ∙ ap (trim_front cap) (append_assoc q (x ∷ []) xs)
