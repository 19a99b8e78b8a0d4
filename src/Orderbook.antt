-- ===== src/Orderbook.antt =====
-- crates/blackbox-core/src/orderbook.rs: the two sides of the book as ordered maps from price to
-- quantity, and the methods of `Orderbook`.
pub mod Sides
pub mod Invariant
pub mod Updates
pub mod Truncate
pub mod Best
use k_blackbox.Base.{
  ℕ, ◌-◌, List, [], ◌∷◌, reverse, head?, get_last?, take, drop, length, Option, none, some, ltb,
  if◌then◌else◌,
}
use k_blackbox.Decimal.{Decimal, decimal_ord, is_zero, is_positive, Level}
use k_blackbox.BTree.{BTreeMap, keys, insert, remove, remove_all}

pub record Orderbook (D : Type 0) : Type 0 where
  pub asks : BTreeMap D D
  pub bids : BTreeMap D D

pub new : {D : Type 0} → Orderbook D
new = record { asks = []; bids = [] }

module _ {D : Type 0} ⦃d : Decimal D⦄ where
  -- The loop of `apply_snapshot` over one side.
  unfoldable pub insert_positive : List (Level D) → BTreeMap D D → BTreeMap D D
  insert_positive [] m = m
  insert_positive ((price, qty) ∷ ls) m =
      insert_positive ls (if is_positive qty then insert price qty m else m)

  unfoldable pub apply_snapshot : Orderbook D → List (Level D) → List (Level D) → Orderbook D
  apply_snapshot book bids asks = record {
    asks = insert_positive asks [];
    bids = insert_positive bids [];
  }

  -- One turn of the loops of `apply_updates`.
  unfoldable pub apply_level : Level D → BTreeMap D D → BTreeMap D D
  apply_level (price, qty) m = if is_zero qty then remove price m else insert price qty m

  unfoldable pub apply_levels : List (Level D) → BTreeMap D D → BTreeMap D D
  apply_levels [] m = m
  apply_levels (l ∷ ls) m = apply_levels ls (apply_level l m)

  unfoldable pub apply_updates : Orderbook D → List (Level D) → List (Level D) → Orderbook D
  apply_updates book bid_updates ask_updates = record {
    asks = apply_levels ask_updates book.asks;
    bids = apply_levels bid_updates book.bids;
  }

  -- Keep the lowest `depth` asks.
  unfoldable pub truncate_asks : ℕ → BTreeMap D D → BTreeMap D D
  truncate_asks depth m = if ltb depth (length m) then remove_all (drop depth (keys m)) m else m

  -- Keep the highest `depth` bids.
  unfoldable pub truncate_bids : ℕ → BTreeMap D D → BTreeMap D D
  truncate_bids depth m =
      if ltb depth (length m) then remove_all (take (length m - depth) (keys m)) m else m

  unfoldable pub truncate : ℕ → Orderbook D → Orderbook D
  truncate depth book = record {
    asks = truncate_asks depth book.asks;
    bids = truncate_bids depth book.bids;
  }

module _ {D : Type 0} where
  unfoldable pub best_bid : Orderbook D → Option (Level D)
  best_bid book = get_last? book.bids

  unfoldable pub best_ask : Orderbook D → Option (Level D)
  best_ask book = head? book.asks

  unfoldable pub asks_iter : Orderbook D → List (Level D)
  asks_iter book = book.asks

  unfoldable pub bids_iter_rev : Orderbook D → List (Level D)
  bids_iter_rev book = reverse book.bids

  unfoldable pub asks_vec : Orderbook D → Option ℕ → List (Level D)
  asks_vec book (some lim) = take lim book.asks
  asks_vec book none = book.asks

  unfoldable pub bids_vec : Orderbook D → Option ℕ → List (Level D)
  bids_vec book (some lim) = take lim (reverse book.bids)
  bids_vec book none = reverse book.bids

  -- The numbers of asks and of bids.
  unfoldable pub depth : Orderbook D → ℕ × ℕ
  depth book = (length book.asks, length book.bids)

module _ {D : Type 0} ⦃d : Decimal D⦄ where
  -- The `match` on both best prices at once.
  abbrev pub on_best : (D → D → D) → Option (Level D) → Option (Level D) → Option D
  on_best f (some (ask, _)) (some (bid, _)) = some (f ask bid)
  on_best f (some _) none = none
  on_best f none _ = none

  unfoldable pub spread : Orderbook D → Option D
  unfolding best_ask best_bid
  spread book = on_best d.sub (best_ask book) (best_bid book)

  unfoldable pub mid : Orderbook D → Option D
  unfolding best_ask best_bid
  mid book = on_best (λ ask bid. d.div (d.add ask bid) (d.from 2)) (best_ask book) (best_bid book)
