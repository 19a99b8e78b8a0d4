-- ===== src/Tui/Widgets/Best.antt =====
-- crates/blackbox-server/src/tui/widgets.rs: which level each side of the book marks.
use Prim.Native.Nat.Ordering.{eq}
use k_blackbox.Base.{
  ℕ, zero, suc, ◌≡◌, ◌≢◌, subst, List, [], ◌∷◌, ◌++◌, take, reverse, reverse-cons, head?, All, Bool,
  true, false, some, arith,
}
use k_blackbox.Ord.{◌≺◌, cmp_refl, gt_of_lt}
use k_blackbox.BTree.{BTreeMap}
use k_blackbox.BTree.Order.{Above, Below, IsSorted}
use k_blackbox.Decimal.{Decimal, Level, decimal_ord}
use k_blackbox.Words.{Float}
use k_blackbox.Orderbook.{Orderbook, best_bid, best_ask, asks_vec, bids_vec}
use k_blackbox.Orderbook.Invariant.{IsValid}
use k_blackbox.Http.Top.{head?-reverse}
use k_blackbox.Tui.Widgets.Book.{BookRow, orderbook_side}

module _ {D : Type 0} ⦃d : Decimal D⦄ where
  -- Only the first row is marked.
  abbrev pub OnlyFirst : List (BookRow D) → Type 0
  OnlyFirst [] = Unit
  OnlyFirst (r ∷ rs) = (r.best ≡ true) × All (λ r. r.best ≡ false) rs

  -- No price is that of the first level.
  abbrev Apart : D → List (Level D) → Type 0
  Apart p levels = All (λ l. d.order.cmp p l.0 ≢ eq) levels

  Apart-of_Above : (p : D) (m : BTreeMap D D) → Above p m → Apart p m
  Apart-of_Above p [] a = tt
  Apart-of_Above p ((j, w) ∷ m) a = (ground arith, Apart-of_Above p m a.1)

  Apart-of_Below : (p : D) (m : BTreeMap D D) → Below p m → Apart p m
  Apart-of_Below p [] a = tt
  Apart-of_Below p ((j, w) ∷ m) a = (ground (arith, gt_of_lt j p), Apart-of_Below p m a.1)

  -- Descending.
  abbrev Desc : BTreeMap D D → Type 0
  Desc [] = Unit {0}
  Desc ((j, w) ∷ m) = Below j m × Desc m

  Above-snoc : (k : D) (m : BTreeMap D D) (j w : D) → Above k m → k ≺ j → Above k (m ++ (j, w) ∷ [])
  Above-snoc k [] j w a h = (h, tt)
  Above-snoc k ((i, u) ∷ m) j w a h = (a.0, Above-snoc k m j w a.1 h)

  Above-reverse : (k : D) (m : BTreeMap D D) → Above k m → Above k (reverse m)
  Above-reverse k [] a = a
  Above-reverse k ((j, w) ∷ m) a =
      rw (reverse-cons (j, w) m) (Above-snoc k (reverse m) j w (Above-reverse k m a.1) a.0)

  Below-snoc : (k : D) (m : BTreeMap D D) (j w : D) → Below k m → j ≺ k → Below k (m ++ (j, w) ∷ [])
  Below-snoc k [] j w a h = (h, tt)
  Below-snoc k ((i, u) ∷ m) j w a h = (a.0, Below-snoc k m j w a.1 h)

  Desc-snoc : (m : BTreeMap D D) (j w : D) → Desc m → Above j m → Desc (m ++ (j, w) ∷ [])
  Desc-snoc [] j w s a = (tt, tt)
  Desc-snoc ((i, u) ∷ m) j w s a = (Below-snoc i m j w s.0 a.0, Desc-snoc m j w s.1 a.1)

  Desc-reverse : (m : BTreeMap D D) → IsSorted m → Desc (reverse m)
  Desc-reverse [] s = tt
  Desc-reverse ((j, w) ∷ m) s =
      rw (reverse-cons (j, w) m)
        (Desc-snoc (reverse m) j w (Desc-reverse m s.1) (Above-reverse j m s.0))

module _ {D F : Type 0} ⦃d : Decimal D⦄ (f : Float F) (to_f64 : D → F) (width : F) where
  side-Apart :
      (is_bids : Bool) (max_qty : F) (n : ℕ) (p q : D) (levels : List (Level D))
      → Apart p levels
      → All
          (λ r. r.best ≡ false)
          (orderbook_side f to_f64 width is_bids max_qty (some (p, q)) (take n levels))
  unfolding orderbook_side
  side-Apart is_bids max_qty zero p q levels a = tt
  side-Apart is_bids max_qty (suc n) p q [] a = tt
  side-Apart is_bids max_qty (suc n) p q ((j, w) ∷ levels) a =
      (ground arith, side-Apart is_bids max_qty n p q levels a.1)

  side-OnlyFirst :
      (is_bids : Bool) (max_qty : F) (n : ℕ) (p q : D) (levels : List (Level D))
      → Apart p levels
      → OnlyFirst
          (orderbook_side f to_f64 width is_bids max_qty (some (p, q)) (take n ((p, q) ∷ levels)))
  unfolding orderbook_side
  side-OnlyFirst is_bids max_qty zero p q levels a = tt
  side-OnlyFirst is_bids max_qty (suc n) p q levels a =
      (ground (arith, cmp_refl p), side-Apart is_bids max_qty n p q levels a)

  asks_first :
      (max_qty : F) (n : ℕ) (m : BTreeMap D D)
      → IsSorted m
      → OnlyFirst (orderbook_side f to_f64 width false max_qty (head? m) (take n m))
  unfolding orderbook_side
  asks_first max_qty zero [] s = tt
  asks_first max_qty (suc n) [] s = tt
  asks_first max_qty n ((p, q) ∷ m) s =
      side-OnlyFirst false max_qty n p q m (Apart-of_Above p m s.0)

  bids_first :
      (max_qty : F) (n : ℕ) (m : BTreeMap D D)
      → Desc m
      → OnlyFirst (orderbook_side f to_f64 width true max_qty (head? m) (take n m))
  unfolding orderbook_side
  bids_first max_qty zero [] s = tt
  bids_first max_qty (suc n) [] s = tt
  bids_first max_qty n ((p, q) ∷ m) s = side-OnlyFirst true max_qty n p q m (Apart-of_Below p m s.0)

  -- However deep the view of a valid book is, each of its sides marks its first row as the best level,
  -- and no other row.
  pub orderbook_side-OnlyFirst :
      (max_qty : F) (n : ℕ) (b : Orderbook D)
      → IsValid b
      → OnlyFirst (orderbook_side f to_f64 width true max_qty (best_bid b) (bids_vec b (some n)))
        × OnlyFirst (orderbook_side f to_f64 width false max_qty (best_ask b) (asks_vec b (some n)))
  unfolding best_bid best_ask bids_vec asks_vec
  orderbook_side-OnlyFirst max_qty n b v = (
    subst
        (λ best.
          OnlyFirst (orderbook_side f to_f64 width true max_qty best (take n (reverse b.bids))))
        (head?-reverse b.bids)
        (bids_first max_qty n (reverse b.bids) (Desc-reverse b.bids v.bids_sorted)),
    asks_first max_qty n b.asks v.asks_sorted,
  )
