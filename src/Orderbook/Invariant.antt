-- ===== src/Orderbook/Invariant.antt =====
-- crates/blackbox-core/src/orderbook.rs: the invariant of the book, and the operations.
use k_blackbox.Base.{ℕ, ◌-◌, length, ◌≡◌, false, List, [], ◌∷◌, take, drop, arith}
use k_blackbox.Decimal.{Decimal, decimal_ord, is_zero, Level}
use k_blackbox.BTree.{BTreeMap, keys, insert, remove, remove_all}
use k_blackbox.BTree.Order.{IsSorted, insert-IsSorted, remove-IsSorted, remove_all-IsSorted}
use k_blackbox.Orderbook.{
  Orderbook, insert_positive, apply_snapshot, apply_level, apply_levels, apply_updates,
  truncate_asks, truncate_bids, truncate, new,
}

module _ {D : Type 0} ⦃d : Decimal D⦄ where
  -- No entry has the quantity zero, which stands for "remove this price".
  abbrev pub NonZero : BTreeMap D D → Type 0
  NonZero [] = Unit {0}
  NonZero ((price, qty) ∷ m) = (is_zero qty ≡ false) × NonZero m

  pub record IsValid (book : Orderbook D) : Type 0 where
    pub asks_sorted : IsSorted book.asks
    pub bids_sorted : IsSorted book.bids
    pub asks_live : NonZero book.asks
    pub bids_live : NonZero book.bids

  insert-NonZero :
      (p q : D) (m : BTreeMap D D) → is_zero q ≡ false → NonZero m → NonZero (insert p q m)
  unfolding insert
  insert-NonZero p q [] h n = (h, tt)
  insert-NonZero p q ((j, w) ∷ m) h n = ground (arith, insert-NonZero p q m h n.1)

  remove-NonZero : (p : D) (m : BTreeMap D D) → NonZero m → NonZero (remove p m)
  unfolding remove
  remove-NonZero p [] n = tt
  remove-NonZero p ((j, w) ∷ m) n = ground (arith, remove-NonZero p m n.1)

  remove_all-NonZero : (ps : List D) (m : BTreeMap D D) → NonZero m → NonZero (remove_all ps m)
  unfolding remove_all
  remove_all-NonZero [] m n = n
  remove_all-NonZero (p ∷ ps) m n = remove_all-NonZero ps (remove p m) (remove-NonZero p m n)

  -- Both facts about one side.
  abbrev IsSide : BTreeMap D D → Type 0
  IsSide m = IsSorted m × NonZero m

  insert_positive-IsSide :
      (ls : List (Level D)) (m : BTreeMap D D) → IsSide m → IsSide (insert_positive ls m)
  unfolding insert_positive
  insert_positive-IsSide [] m s = s
  insert_positive-IsSide ((p, q) ∷ ls) m s =
      insert_positive-IsSide ls _ (ground (arith, insert-IsSorted p q m s.0, insert-NonZero p q m))

  apply_levels-IsSide :
      (ls : List (Level D)) (m : BTreeMap D D) → IsSide m → IsSide (apply_levels ls m)
  unfolding apply_levels apply_level
  apply_levels-IsSide [] m s = s
  apply_levels-IsSide ((p, q) ∷ ls) m s = apply_levels-IsSide ls _ (
      ground (
        arith,
        insert-IsSorted p q m s.0,
        insert-NonZero p q m,
        remove-IsSorted p m s.0,
        remove-NonZero p m s.1,
      ))

  pub new-IsValid : IsValid (new {D = D})
  unfolding new
  new-IsValid = record { asks_sorted = tt; bids_sorted = tt; asks_live = tt; bids_live = tt }

  -- A snapshot leaves a valid book, whatever the book was.
  pub apply_snapshot-IsValid :
      (book : Orderbook D) (bids asks : List (Level D)) → IsValid (apply_snapshot book bids asks)
  unfolding apply_snapshot
  apply_snapshot-IsValid book bids asks =
      let a = insert_positive-IsSide asks [] (tt, tt) in
      let b = insert_positive-IsSide bids [] (tt, tt) in
      record { asks_sorted = a.0; bids_sorted = b.0; asks_live = a.1; bids_live = b.1 }

  -- Updates keep the book valid.
  pub apply_updates-IsValid :
      (book : Orderbook D) (bids asks : List (Level D))
      → IsValid book
      → IsValid (apply_updates book bids asks)
  unfolding apply_updates
  apply_updates-IsValid book bids asks v =
      let a = apply_levels-IsSide asks book.asks (v.asks_sorted, v.asks_live) in
      let b = apply_levels-IsSide bids book.bids (v.bids_sorted, v.bids_live) in
      record { asks_sorted = a.0; bids_sorted = b.0; asks_live = a.1; bids_live = b.1 }

  remove_all-IsSide : (ps : List D) (m : BTreeMap D D) → IsSide m → IsSide (remove_all ps m)
  remove_all-IsSide ps m s = (remove_all-IsSorted ps m s.0, remove_all-NonZero ps m s.1)

  truncate_asks-IsSide : (n : ℕ) (m : BTreeMap D D) → IsSide m → IsSide (truncate_asks n m)
  unfolding truncate_asks
  truncate_asks-IsSide n m s = ground (arith, remove_all-IsSide (drop n (keys m)) m s)

  truncate_bids-IsSide : (n : ℕ) (m : BTreeMap D D) → IsSide m → IsSide (truncate_bids n m)
  unfolding truncate_bids
  truncate_bids-IsSide n m s = ground (arith, remove_all-IsSide (take (length m - n) (keys m)) m s)

  -- So does cutting it to a depth.
  pub truncate-IsValid : (n : ℕ) (book : Orderbook D) → IsValid book → IsValid (truncate n book)
  unfolding truncate
  truncate-IsValid n book v =
      let a = truncate_asks-IsSide n book.asks (v.asks_sorted, v.asks_live) in
      let b = truncate_bids-IsSide n book.bids (v.bids_sorted, v.bids_live) in
      record { asks_sorted = a.0; bids_sorted = b.0; asks_live = a.1; bids_live = b.1 }
