-- ===== src/Tui/Widgets/Book.antt =====
-- crates/blackbox-server/src/tui/widgets.rs: what `render_orderbook` and `render_orderbook_side` show, as
-- data. Fixed texts, layout and the drawing are left out.
use k_blackbox.Base.{
  ℕ, ◌-◌, min, max, List, [], ◌∷◌, ◌++◌, Bool, true, false, Option, none, some, String,
  if◌then◌else◌,
}
use Prim.Native.Nat.Ordering.{eq}
use k_blackbox.Decimal.{Decimal, Level}
use k_blackbox.Words.{Float}
use k_blackbox.DashMap.{get}
use k_blackbox.Orderbook.{Orderbook, best_bid, best_ask, spread, mid, bids_vec, asks_vec}
use k_blackbox.State.{AppState}
use k_blackbox.Tui.Widgets.{Color, green, light_red}

pub record BookRow (D : Type 0) : Type 0 where
  pub price : D
  pub qty : D
  pub bar : ℕ
  pub best : Bool
  pub bar_color : Color

pub data Summary (D : Type 0) : Type 0 where
  waiting : Summary D
  -- The best bid and ask, and the spread with the mid.
  best : Level D → Level D → Option (D × Option D) → Summary D

pub data BookView (D : Type 0) : Type 0 where
  no_symbol : BookView D
  no_data : String → BookView D
  -- The summary, the bids and the asks.
  book : Summary D → List (BookRow D) → List (BookRow D) → BookView D

module _ {D : Type 0} ⦃d : Decimal D⦄ where
  abbrev pub with_mid : Option D → Option D → Option (D × Option D)
  with_mid none m = none
  with_mid (some s) m = some (s, m)

  abbrev pub summary_of : Option (Level D) → Option (Level D) → Option D → Option D → Summary D
  summary_of (some bid) (some ask) s m = best bid ask (with_mid s m)
  summary_of (some bid) none s m = waiting
  summary_of none ask s m = waiting

  -- `p == price`
  abbrev pub is_price : D → D → Bool
  is_price p price = elim (d.order.cmp p price) [ eq ↦ true | _ ↦ false ]

  abbrev pub is_best : Option (Level D) → D → Bool
  is_best none price = false
  is_best (some (p, q)) price = is_price p price

-- `height` is that of the area; two lines of it are the border and one the header.
unfoldable pub display_depth : ℕ → ℕ → ℕ
display_depth depth height = min depth (max (height - 2 - 1) 10)

module _ {D F : Type 0} ⦃d : Decimal D⦄ (f : Float F) (to_f64 : D → F) (width : F) where
  -- `width` is 25.0, and `to_f64` has 0.0 for a decimal that has no float.
  abbrev pub bar_of : F → D → ℕ
  bar_of max_qty qty =
      if f.lt f.zero max_qty
      then min (f.to_usize (f.mul (f.div (to_f64 qty) max_qty) width)) 25
      else 0

  unfoldable pub orderbook_side : Bool → F → Option (Level D) → List (Level D) → List (BookRow D)
  orderbook_side is_bids max_qty best_level [] = []
  orderbook_side is_bids max_qty best_level ((price, qty) ∷ levels) =
      record {
        price = price;
        qty = qty;
        bar = bar_of max_qty qty;
        best = is_best best_level price;
        bar_color = if is_bids then green else light_red;
      }
      ∷ orderbook_side is_bids max_qty best_level levels

  unfoldable pub max_from : F → List (Level D) → F
  max_from m [] = m
  max_from m ((price, qty) ∷ levels) = max_from (f.fmax m (to_f64 qty)) levels

  abbrev pub book_view : ℕ → Orderbook D → BookView D
  book_view n b =
      let bids = bids_vec b (some n) in
      let asks = asks_vec b (some n) in
      let max_qty = max_from f.zero (bids ++ asks) in
      book (summary_of (best_bid b) (best_ask b) (spread b) (mid b))
        (orderbook_side true max_qty (best_bid b) bids)
        (orderbook_side false max_qty (best_ask b) asks)

  abbrev pub view_of : String → ℕ → Option (Orderbook D) → BookView D
  view_of symbol n none = no_data symbol
  view_of symbol n (some b) = book_view n b

  unfoldable pub render_orderbook : ℕ → ℕ → Option String → AppState D F → BookView D
  unfolding orderbook_side max_from display_depth
  render_orderbook depth height none s = no_symbol
  render_orderbook depth height (some symbol) s =
      view_of symbol (display_depth depth height) (get symbol s.orderbooks)
