-- ===== src/Orderbook/Best.antt =====
-- The best prices, the spread, and when the book is crossed.
use Prim.Native.Nat.Ordering.{lt, gt}
use k_blackbox.Base.{
  subst, ◌≡◌, ◌≢◌, ◌↔◌, refl, sym, ap, ◌∙◌, [], ◌∷◌, head?, get_last?, Option, none, some, arith,
  All,
}
use mathlib.Core.Option.{some-injective}
use k_blackbox.Ord.{◌≺◌, cmp_refl, gt_of_lt, lt_of_gt, eq_symm, cmp_congr_right}
use k_blackbox.Decimal.{Decimal, decimal_ord, Level}
use k_blackbox.BTree.{BTreeMap}
use k_blackbox.BTree.Order.{IsSorted, Above}
use k_blackbox.Orderbook.{Orderbook, best_ask, best_bid, spread, on_best, asks_iter}
use k_blackbox.Orderbook.Invariant.{IsValid}

module _ {D : Type 0} ⦃d : Decimal D⦄ where
  -- No price of the side lies below `p`; none lies above it.
  abbrev pub NoneBelow : D → BTreeMap D D → Type 0
  NoneBelow p m = All (λ l. d.order.cmp l.0 p ≢ lt) m

  abbrev pub NoneAbove : D → BTreeMap D D → Type 0
  NoneAbove p m = All (λ l. d.order.cmp l.0 p ≢ gt) m

  NoneBelow-of_Above : (p : D) (m : BTreeMap D D) → Above p m → NoneBelow p m
  NoneBelow-of_Above p [] h = tt
  NoneBelow-of_Above p ((j, w) ∷ m) h = (ground (arith, gt_of_lt p j), NoneBelow-of_Above p m h.1)

  head-NoneBelow : (m : BTreeMap D D) (p q : D) → IsSorted m → head? m ≡ some (p, q) → NoneBelow p m
  head-NoneBelow [] p q s h = tt
  head-NoneBelow ((j, w) ∷ m) p q s h =
      subst (λ x. NoneBelow x ((j, w) ∷ m)) (ground arith)
        (ground (arith, cmp_refl j), NoneBelow-of_Above j m s.0)

  -- The last entry lies above whatever all entries lie above.
  last-above : (j : D) (m : BTreeMap D D) (p q : D) → Above j m → get_last? m ≡ some (p, q) → j ≺ p
  last-above j [] p q a h = cc
  last-above j ((i, u) ∷ []) p q a h = ground arith
  last-above j ((i, u) ∷ (k, v) ∷ m) p q a h = last-above j ((k, v) ∷ m) p q a.1 h

  last-NoneAbove :
      (m : BTreeMap D D) (p q : D) → IsSorted m → get_last? m ≡ some (p, q) → NoneAbove p m
  last-NoneAbove [] p q s h = tt
  last-NoneAbove ((j, w) ∷ []) p q s h = (ground (arith, cmp_refl j), tt)
  last-NoneAbove ((j, w) ∷ (i, u) ∷ m) p q s h =
      (ground (arith, last-above j ((i, u) ∷ m) p q s.0 h), last-NoneAbove ((i, u) ∷ m) p q s.1 h)

  -- The best ask of a valid book is its lowest ask, the first that the ascending view shows.
  pub best_ask-lowest :
      (book : Orderbook D) (p q : D)
      → IsValid book
      → best_ask book ≡ some (p, q)
      → NoneBelow p (asks_iter book) × (head? (asks_iter book) ≡ some (p, q))
  unfolding best_ask asks_iter
  best_ask-lowest book p q v h = (head-NoneBelow book.asks p q v.asks_sorted h, h)

  -- The best bid of a valid book is its highest bid.
  best_bid-NoneAbove :
      (book : Orderbook D) (p q : D)
      → IsValid book
      → best_bid book ≡ some (p, q)
      → NoneAbove p book.bids
  unfolding best_bid
  best_bid-NoneAbove book p q v h = last-NoneAbove book.bids p q v.bids_sorted h

  -- Every bid lies strictly below every ask.
  abbrev pub Uncrossed : Orderbook D → Type 0
  Uncrossed book = All (λ a. All (λ b. b.0 ≺ a.0) book.bids) book.asks

  between : (b x y a : D) → d.order.cmp b x ≢ gt → x ≺ y → d.order.cmp a y ≢ lt → b ≺ a
  between b x y a h k l = ground (
    arith,
    d.order.lt_trans b x y,
    d.order.cmp_congr b x y,
    d.order.lt_trans b y a,
    cmp_congr_right y a b,
    eq_symm a y,
    lt_of_gt a y,
  )

  bids_below :
      (a x y : D) (m : BTreeMap D D)
      → x ≺ y
      → d.order.cmp a y ≢ lt
      → NoneAbove x m
      → All (λ b. b.0 ≺ a) m
  bids_below a x y [] h k l = tt
  bids_below a x y ((j, w) ∷ m) h k l = (between j x y a l.0 h k, bids_below a x y m h k l.1)

  asks_above :
      (x y : D) (asks bids : BTreeMap D D)
      → x ≺ y
      → NoneBelow y asks
      → NoneAbove x bids
      → All (λ a. All (λ b. b.0 ≺ a.0) bids) asks
  asks_above x y [] bids h k l = tt
  asks_above x y ((j, w) ∷ asks) bids h k l =
      (bids_below j x y bids h k.0 l, asks_above x y asks bids h k.1 l)

  module _ {κ} (P : Level D → Type κ) where
    All-head : (m : BTreeMap D D) (l : Level D) → head? m ≡ some l → All P m → P l
    All-head [] l h a = cc
    All-head (x ∷ m) l h a = subst P (some-injective _ _ h) a.0

    All-last : (m : BTreeMap D D) (l : Level D) → get_last? m ≡ some l → All P m → P l
    All-last [] l h a = cc
    All-last (x ∷ []) l h a = subst P (some-injective _ _ h) a.0
    All-last (x ∷ y ∷ m) l h a = All-last (y ∷ m) l h a.1

  -- `spread` has a value exactly when both best prices have, and it is their difference.
  spread_parts :
      (book : Orderbook D) (s : D)
      → spread book ≡ some s
      → (a : Level D) × (b : Level D) × (best_ask book ≡ some a)
        × (best_bid book ≡ some b)
        × (s ≡ d.sub a.0 b.0)
  unfolding spread
  spread_parts book s h = go (best_ask book) (best_bid book) refl refl h
    where
      go :
          (x y : Option (Level D))
          → best_ask book ≡ x
          → best_bid book ≡ y
          → on_best d.sub x y ≡ some s
          → (a : Level D) × (b : Level D) × (best_ask book ≡ some a)
            × (best_bid book ≡ some b)
            × (s ≡ d.sub a.0 b.0)
      go (some a) (some b) e f k = (a, b, e, f, sym (some-injective _ _ k))
      go (some a) none e f k = absurd (cc)
      go none y e f k = absurd (cc)

  -- The spread of a valid book is positive exactly when every bid lies below every ask.
  pub spread-positive_iff :
      (book : Orderbook D) (s : D)
      → IsValid book
      → spread book ≡ some s
      → (d.order.cmp s d.zero ≡ gt) ↔ Uncrossed book
  unfolding best_ask best_bid
  spread-positive_iff book s v h = (
    λ positive.
        asks_above b.0 a.0 book.asks book.bids (ground (arith, sign, lt_of_gt a.0 b.0))
          (head-NoneBelow book.asks a.0 a.1 v.asks_sorted ea)
          (last-NoneAbove book.bids b.0 b.1 v.bids_sorted eb),
    λ uncrossed. ground (
      arith,
      sign,
      gt_of_lt b.0 a.0,
      All-last (λ (l : Level D). l.0 ≺ a.0) book.bids b eb
          (All-head (λ (l : Level D). All (λ x. x.0 ≺ l.0) book.bids) book.asks a ea uncrossed),
    ),
  )
    where
      parts :
          (a : Level D) × (b : Level D) × (best_ask book ≡ some a)
          × (best_bid book ≡ some b)
          × (s ≡ d.sub a.0 b.0)
      parts = spread_parts book s h

      a : Level D
      a = parts.0

      b : Level D
      b = parts.1

      ea : head? book.asks ≡ some a
      ea = parts.2

      eb : get_last? book.bids ≡ some b
      eb = parts.3

      sign : d.order.cmp s d.zero ≡ d.order.cmp a.0 b.0
      sign = ap (λ x. d.order.cmp x d.zero) parts.4 ∙ d.sub_sign a.0 b.0
