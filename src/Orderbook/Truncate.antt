-- ===== src/Orderbook/Truncate.antt =====
-- `truncate` removes keys one by one; here it is a prefix of each side in the order of the views.
use k_blackbox.Base.{
  ℕ, ◌-◌, ◌≡◌, refl, sym, ap, ◌∙◌, inl, inr, List, ◌++◌, reverse, take, drop, length, length-take,
  length-drop, length-reverse, take_append, take_all, take-append-drop, reverse-append, Bool-cases,
  none, some, ltb, leb, leb→le, min, arith,
}
use k_blackbox.Decimal.{Decimal, decimal_ord}
use k_blackbox.BTree.{BTreeMap}
use k_blackbox.BTree.Order.{IsSorted}
use k_blackbox.BTree.Cut.{remove_all-keys-drop, remove_all-keys-take}
use k_blackbox.Orderbook.{
  Orderbook, truncate_asks, truncate_bids, truncate, asks_vec, bids_vec, depth,
}
use k_blackbox.Orderbook.Sides.{keys-drop, keys-take}
use k_blackbox.Orderbook.Invariant.{IsValid}

module _ {ℓ} {A : Type ℓ} where
  -- The last `n` entries, read backwards, are the first `n` of the reversal.
  pub reverse-drop : (n : ℕ) (xs : List A) → reverse (drop (length xs - n) xs) ≡ take n (reverse xs)
  reverse-drop n xs = elim (Bool-cases (leb n (length xs))) [
    | inl h ↦
        let le = leb→le n (length xs) h in
        let len : length (reverse (drop k xs)) ≡ n =
          omega (arith, length-reverse (drop k xs), length-drop k xs) in
        sym (take_all n (reverse (drop k xs)) (omega arith))
        ∙ sym (take_append n (reverse (drop k xs)) (reverse (take k xs)) (omega arith))
        ∙ ap (take n) parts
    | inr h ↦
        let e : length xs - n ≡ 0 = ground arith in
        rw e (sym (take_all n (reverse xs) (ground (arith, length-reverse xs))))
  ]
    where
      k : ℕ
      k = length xs - n

      parts : reverse (drop k xs) ++ reverse (take k xs) ≡ reverse xs
      parts = sym (reverse-append (take k xs) (drop k xs)) ∙ ap reverse (take-append-drop k xs)

module _ {D : Type 0} ⦃d : Decimal D⦄ where
  pub truncate_asks-eq-take : (n : ℕ) (m : BTreeMap D D) → IsSorted m → truncate_asks n m ≡ take n m
  unfolding truncate_asks
  truncate_asks-eq-take n m s = elim (Bool-cases (ltb n (length m))) [
    | inl h ↦ rw (h, keys-drop n m) (remove_all-keys-drop n m s)
    | inr h ↦ rw h (sym (take_all n m (ground arith)))
  ]

  pub truncate_bids-eq-drop : (n : ℕ) (m : BTreeMap D D) → truncate_bids n m ≡ drop (length m - n) m
  unfolding truncate_bids
  truncate_bids-eq-drop n m = elim (Bool-cases (ltb n (length m))) [
    | inl h ↦ rw (h, keys-take (length m - n) m) (remove_all-keys-take (length m - n) m)
    | inr h ↦ let e : length m - n ≡ 0 = ground arith in rw (h, e) refl
  ]

  -- Truncating a valid book to `n` levels leaves exactly what the views limited to `n` showed: the
  -- `n` lowest asks in ascending and the `n` highest bids in descending order.
  pub truncate-eq-limit :
      (n : ℕ) (book : Orderbook D)
      → IsValid book
      → (asks_vec (truncate n book) none ≡ asks_vec book (some n))
        × (bids_vec (truncate n book) none ≡ bids_vec book (some n))
  unfolding truncate asks_vec bids_vec
  truncate-eq-limit n book v = (
    truncate_asks-eq-take n book.asks v.asks_sorted,
    ap reverse (truncate_bids-eq-drop n book.bids) ∙ reverse-drop n book.bids,
  )

  -- A truncated valid book has at most `n` levels on a side, and loses none that fit.
  pub depth-truncate :
      (n : ℕ) (book : Orderbook D)
      → IsValid book
      → ((depth (truncate n book)).0 ≡ min n (depth book).0)
        × ((depth (truncate n book)).1 ≡ min n (depth book).1)
  unfolding truncate depth
  depth-truncate n book v = (
    rw (truncate_asks-eq-take n book.asks v.asks_sorted) (length-take n book.asks),
    rw (truncate_bids-eq-drop n book.bids)
        (omega (arith, length-drop (length book.bids - n) book.bids)),
  )
