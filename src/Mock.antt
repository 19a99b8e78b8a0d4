-- ===== src/Mock.antt =====
-- crates/blackbox-server/src/main.rs: `mock_data_generator`, which makes books and verdicts for a
-- demonstration.
use k_blackbox.Base.{
  ℕ, zero, suc, ◌+◌, ◌-◌, ◌%◌, List, [], ◌∷◌, true, ◌&&◌, Option, none, some, String, codes, str_eq,
  ltb, ◌==◌, if◌then◌else◌,
}
use k_blackbox.Decimal.{Decimal, Level}
use k_blackbox.Utf8.{byte_len}
use k_blackbox.Words.{Time, Float, u64_mod, inc_u64}
use k_blackbox.DashMap.{get, insert}
use k_blackbox.Types.{InstrumentInfo}
use k_blackbox.Orderbook.{Orderbook, apply_snapshot, apply_updates, truncate}
use k_blackbox.Orderbook
use k_blackbox.Health.{
  SymbolHealth, record_message, record_checksum_ok, record_checksum_fail, update_msg_rate,
}
use k_blackbox.Health
use k_blackbox.State.{
  AppState, connected, subscribed_instrument, subscribed_book, checksum_ok, checksum_mismatch,
  push_event,
}
use k_blackbox.Processor.Capture.{record_if_enabled}

-- What the generator needs of decimals besides: a product, and the decimal of `a as i64 - b`.
pub record Products (D : Type 0) : Type 0 where
  pub mul : D → D → D
  pub from_difference : ℕ → ℕ → D

-- What a tick reads of the clock for one symbol, and the text of the frame that it makes up.
pub record Reading : Type 0 where
  pub frame : String
  pub recorded : Time
  pub message : Time
  pub failed : Time
  pub logged : Time

module _ {D : Type 0} ⦃d : Decimal D⦄ (p : Products D) where
  -- `Decimal::from(n) * Decimal::from(k) / Decimal::from(m)`
  abbrev pub scaled : D → ℕ → ℕ → D
  scaled x k m = d.div (p.mul x (d.from k)) (d.from m)

  unfoldable pub base_price : String → D
  base_price symbol =
      if str_eq symbol "BTC/USD"
      then d.div (d.from 9500000) (d.from 100)
      else if str_eq symbol "ETH/USD"
      then d.div (d.from 300000) (d.from 100)
      else if str_eq symbol "SOL/USD"
      then d.div (d.from 20000) (d.from 100)
      else d.div (d.from 10000) (d.from 100)

  abbrev pub bid_at : D → ℕ → D
  bid_at base i = d.sub base (scaled (d.from i) 1000 100)

  abbrev pub ask_at : D → ℕ → D
  ask_at base i = d.add base (scaled (d.from (i + 1)) 1000 100)

  abbrev pub qty_of : ℕ → D
  qty_of n = scaled (d.from n) 1000000 10000000

  -- The levels from `i` on, `n` of them.
  abbrev pub bids_from : D → ℕ → ℕ → List (Level D)
  bids_from base zero i = []
  bids_from base (suc n) i = (bid_at base i, qty_of (10 - i)) ∷ bids_from base n (suc i)

  abbrev pub asks_from : D → ℕ → ℕ → List (Level D)
  asks_from base zero i = []
  asks_from base (suc n) i = (ask_at base i, qty_of (i + 1)) ∷ asks_from base n (suc i)

  unfoldable pub first_book : String → Orderbook D
  unfolding base_price
  first_book symbol =
      apply_snapshot Orderbook.new (bids_from (base_price symbol) 10 0)
        (asks_from (base_price symbol) 10 0)

  abbrev pub mock_instrument : String → InstrumentInfo D
  mock_instrument symbol = record {
    symbol = symbol;
    price_precision = 2;
    qty_precision = 6;
    price_increment = d.div (d.from 1) (d.from 100);
    qty_increment = d.div (d.from 1) (d.from 1000000);
    status = "online";
  }

  -- `symbol.len()` counts bytes.
  unfoldable pub level_to_update : ℕ → String → ℕ
  level_to_update counter symbol = ((counter + byte_len (codes symbol)) % u64_mod) % 10

  -- The prices move with the counter.
  abbrev pub current_base : ℕ → String → D
  current_base counter symbol =
      d.add (base_price symbol) (scaled (p.from_difference (counter % 20) 10) 1000000 10000000)

  -- One level is removed at times, and otherwise one level of each side is set.
  unfoldable pub next_book : ℕ → String → Orderbook D → Orderbook D
  unfolding base_price level_to_update
  next_book counter symbol book =
      let level : ℕ = level_to_update counter symbol in
      let base : D = current_base counter symbol in
      let qty : D = qty_of (10 - level % 10) in
      truncate 10 (
        if counter % 50 == 0 && ltb level 5
        then apply_updates book ((bid_at base level, d.zero) ∷ []) []
        else apply_updates book ((bid_at base level, qty) ∷ []) ((ask_at base level, qty) ∷ []))

module _ {D F : Type 0} ⦃d : Decimal D⦄ (p : Products D) (f : Float F) where
  unfoldable pub init_symbol : String → AppState D F → AppState D F
  unfolding first_book
  init_symbol symbol s = record s {
    health = insert symbol (Health.new f symbol) s.health;
    orderbooks = insert symbol (first_book p symbol) s.orderbooks;
    instruments = insert symbol (mock_instrument p symbol) s.instruments;
  }

  abbrev pub init_symbols : List String → AppState D F → AppState D F
  init_symbols [] s = s
  init_symbols (symbol ∷ symbols) s = init_symbols symbols (init_symbol symbol s)

  -- What comes before the loop.
  unfoldable pub begin : Time → List String → AppState D F → AppState D F
  unfolding init_symbol push_event
  begin now symbols s =
      push_event now subscribed_book
        (push_event now subscribed_instrument (push_event now connected (init_symbols symbols s)))

  abbrev pub move_book : ℕ → String → Option (Orderbook D) → AppState D F → AppState D F
  move_book counter symbol none s = s
  move_book counter symbol (some book) s = record s {
    orderbooks = insert symbol (next_book p counter symbol book) s.orderbooks;
  }

  -- `ten` is the rate 10.0. The verdict has nothing to do with the book.
  abbrev pub judged : F → ℕ → Reading → SymbolHealth F → SymbolHealth F
  judged ten counter r h =
      let seen = record_message r.message (record h { connected = true }) in
      update_msg_rate ten (
        if counter % 1000 == 0 then record_checksum_fail r.failed seen else record_checksum_ok seen)

  abbrev pub with_health :
      F → ℕ → Reading → String → Option (SymbolHealth F) → AppState D F → AppState D F
  with_health ten counter r symbol none s = s
  with_health ten counter r symbol (some h) s =
      let moved = move_book counter symbol (get symbol s.orderbooks) s in
      let logged =
        push_event r.logged
          (if counter % 1000 == 0 then checksum_mismatch symbol else checksum_ok symbol) moved in
      record logged { health = insert symbol (judged ten counter r h) logged.health }

  unfoldable pub tick_symbol : F → ℕ → Reading → String → AppState D F → AppState D F
  unfolding record_if_enabled push_event next_book record_message record_checksum_ok
      record_checksum_fail update_msg_rate
  tick_symbol ten counter r symbol s =
      let recorded = record_if_enabled r.recorded r.frame s in
      with_health ten counter r symbol (get symbol recorded.health) recorded

  unfoldable pub tick : F → ℕ → (String → Reading) → List String → AppState D F → AppState D F
  unfolding tick_symbol
  tick ten counter clock [] s = s
  tick ten counter clock (symbol ∷ symbols) s =
      tick ten counter clock symbols (tick_symbol ten counter (clock symbol) symbol s)

  -- The loop, for the readings of so many ticks.
  unfoldable pub ticks : F → ℕ → List (String → Reading) → List String → AppState D F → AppState D F
  unfolding tick inc_u64
  ticks ten counter [] symbols s = s
  ticks ten counter (clock ∷ clocks) symbols s =
      ticks ten (inc_u64 counter) clocks symbols (tick ten (inc_u64 counter) clock symbols s)

  unfoldable pub mock_data_generator :
      F → Time → List (String → Reading) → List String → AppState D F → AppState D F
  unfolding begin ticks
  mock_data_generator ten now clocks symbols s = ticks ten 0 clocks symbols (begin now symbols s)
