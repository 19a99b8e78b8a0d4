-- ===== src/Orderbook/Updates.antt =====
-- crates/blackbox-core/src/orderbook.rs: what the book reads after a batch of updates.
use Prim.Native.Nat.Ordering.{eq}
use k_blackbox.Base.{
  ◌≡◌, refl, sym, ap, ◌∙◌, true, List, [], ◌∷◌, Option, none, some, inl, inr, Bool-cases,
  if◌then◌else◌, arith,
}
use k_blackbox.Decimal.{Decimal, decimal_ord, is_zero, is_positive, Level}
use k_blackbox.BTree.{BTreeMap, get, insert}
use k_blackbox.BTree.Order.{IsSorted, insert-IsSorted, remove-IsSorted}
use k_blackbox.BTree.Lookup.{update, get-insert, get-remove}
use k_blackbox.Orderbook.{
  Orderbook, new, insert_positive, apply_snapshot, apply_level, apply_levels, apply_updates,
}
use k_blackbox.Orderbook.Invariant.{IsValid}

module _ {D : Type 0} ⦃d : Decimal D⦄ where
  -- The quantity of the last level whose price compares equal to `p`.
  pub last_for : D → List (Level D) → Option D
  last_for p [] = none
  last_for p ((price, qty) ∷ ls) = elim (last_for p ls) [
    | some q ↦ some q
    | none ↦ elim (d.order.cmp p price) [ eq ↦ some qty | _ ↦ none ]
  ]

  -- A level named by the batch replaces the old reading: zero removes it, any other quantity stands.
  abbrev pub amend : Option D → Option D → Option D
  amend none old = old
  amend (some q) old = if is_zero q then none else some q

  apply_level-IsSorted : (p q : D) (m : BTreeMap D D) → IsSorted m → IsSorted (apply_level (p, q) m)
  unfolding apply_level
  apply_level-IsSorted p q m s = ground (arith, insert-IsSorted p q m s, remove-IsSorted p m s)

  get-apply_level :
      (k q : D) (m : BTreeMap D D) (p : D)
      → IsSorted m
      → get p (apply_level (k, q) m)
        ≡ update k (if is_zero q then none else some q) (λ x. get x m) p
  unfolding apply_level
  get-apply_level k q m p s = ground (arith, get-insert k q m p, get-remove k m p s)

  get-apply_levels :
      (ls : List (Level D)) (m : BTreeMap D D) (p : D)
      → IsSorted m
      → get p (apply_levels ls m) ≡ amend (last_for p ls) (get p m)
  unfolding apply_levels last_for
  get-apply_levels [] m p s = refl
  get-apply_levels ((k, q) ∷ ls) m p s = ground (
    arith,
    get-apply_levels ls (apply_level (k, q) m) p (apply_level-IsSorted k q m s),
    get-apply_level k q m p s,
  )

  -- After `apply_updates` on a valid book each side reads, at every price, the last level of its
  -- batch that names the price: nothing there if the quantity is zero, that quantity otherwise.
  -- A price that the batch does not name reads as before.
  pub get-apply_updates :
      (book : Orderbook D) (bids asks : List (Level D)) (p : D)
      → IsValid book
      → (get p (apply_updates book bids asks).bids ≡ amend (last_for p bids) (get p book.bids))
        × (get p (apply_updates book bids asks).asks ≡ amend (last_for p asks) (get p book.asks))
  unfolding apply_updates
  get-apply_updates book bids asks p v = (
    get-apply_levels bids book.bids p v.bids_sorted,
    get-apply_levels asks book.asks p v.asks_sorted,
  )

  pub positives : List (Level D) → List (Level D)
  positives [] = []
  positives ((p, q) ∷ ls) = if is_positive q then (p, q) ∷ positives ls else positives ls

  apply_level_positive :
      (p q : D) (m : BTreeMap D D) → is_positive q ≡ true → apply_level (p, q) m ≡ insert p q m
  unfolding apply_level
  apply_level_positive p q m h = ground arith

  insert_positive-eq-apply :
      (ls : List (Level D)) (m : BTreeMap D D)
      → insert_positive ls m ≡ apply_levels (positives ls) m
  unfolding insert_positive apply_levels positives
  insert_positive-eq-apply [] m = refl
  insert_positive-eq-apply ((p, q) ∷ ls) m = elim (Bool-cases (is_positive q)) [
    | inl h ↦ rw h (
        insert_positive-eq-apply ls (insert p q m)
        ∙ ap (apply_levels (positives ls)) (sym (apply_level_positive p q m h)))
    | inr h ↦ rw h (insert_positive-eq-apply ls m)
  ]

  -- A snapshot is the batch of its positive levels, applied as updates to the empty book.
  pub apply_snapshot-eq-updates :
      (book : Orderbook D) (bids asks : List (Level D))
      → apply_snapshot book bids asks ≡ apply_updates new (positives bids) (positives asks)
  unfolding apply_snapshot apply_updates new
  apply_snapshot-eq-updates book bids asks = λ i. record {
    asks = insert_positive-eq-apply asks [] i;
    bids = insert_positive-eq-apply bids [] i;
  }
