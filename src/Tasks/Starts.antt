-- ===== src/Tasks/Starts.antt =====
-- crates/blackbox-server/src/main.rs: the start of the program and the made-up data keep the shared
-- state sound.
use k_blackbox.Base.{
  ℕ, refl, List, [], ◌∷◌, Bool, true, false, Option, none, some, String, holds_if, arith,
}
use k_blackbox.Decimal.{Decimal}
use k_blackbox.Words.{Time, Float}
use k_blackbox.DashMap.{get, contains_key}
use k_blackbox.DashMap.Every.{IfSome, Every-insert, Every-get}
use k_blackbox.Orderbook.{Orderbook, apply_snapshot, apply_updates, truncate}
use k_blackbox.Orderbook
use k_blackbox.Orderbook.Invariant.{
  IsValid, apply_snapshot-IsValid, apply_updates-IsValid, truncate-IsValid,
}
use k_blackbox.Health.{SymbolHealth}
use k_blackbox.Recorder
use k_blackbox.State.{
  AppState, UiEvent, connected, subscribed_instrument, subscribed_book, checksum_ok,
  checksum_mismatch, record_started, push_event, set_depth, set_requested_symbols,
  set_recording_path, set_recording_enabled,
}
use k_blackbox.State
use k_blackbox.Processor.Capture.{record_if_enabled}
use k_blackbox.Setup.{prepare_symbols, start_recorder, prepare_tui}
use k_blackbox.Mock.{
  Products, Reading, first_book, next_book, init_symbol, init_symbols, begin, move_book,
  with_health, tick_symbol, tick,
}
use k_blackbox.Tasks.Sound.{IsSound, push_event-IsSound, record_if_enabled-IsSound}

module _ {D F : Type 0} ⦃d : Decimal D⦄ (f : Float F) where
  prepare_symbols-IsSound :
      (depth : ℕ) (symbols : List String) (s : AppState D F)
      → IsSound s
      → IsSound (prepare_symbols f depth symbols s)
  unfolding prepare_symbols
  prepare_symbols-IsSound depth [] s v = v
  prepare_symbols-IsSound depth (symbol ∷ symbols) s v =
      let deep = set_depth symbol depth s in
      prepare_symbols-IsSound depth symbols _
        (holds_if IsSound (contains_key symbol deep.health) deep _ v v)

  start_recorder-IsSound :
      (now : Time) (created : Bool) (path : Option String) (s : AppState D F)
      → IsSound s
      → IsSound (start_recorder f now created path s)
  unfolding set_recording_path set_recording_enabled Recorder.new
  start_recorder-IsSound now created none s v = v
  start_recorder-IsSound now false (some path) s v = v
  start_recorder-IsSound now true (some path) s v =
      push_event-IsSound now (record_started path)
        (set_recording_path (some path)
          (set_recording_enabled true (record s { recorder = some (Recorder.new path) })))
        (v.0, v.1, v.2, v.3, v.4, (refl, refl))

module _ (D : Type 0) {F : Type 0} ⦃d : Decimal D⦄ (f : Float F) where
  -- The state that `run_tui_mode` starts its tasks with is sound.
  pub prepare_tui-IsSound :
      (now logged : Time) (depth : ℕ) (symbols : List String) (created : Bool)
      (path : Option String)
      → IsSound {D = D} (prepare_tui f now logged depth symbols created path)
  unfolding prepare_tui
  prepare_tui-IsSound now logged depth symbols created path =
      start_recorder-IsSound f logged created path _ (
        prepare_symbols-IsSound f depth symbols (set_requested_symbols symbols (State.new now))
          (omega arith, omega arith, tt, tt, tt, refl))

module _ {D : Type 0} ⦃d : Decimal D⦄ (p : Products D) where
  first_book-IsValid : (symbol : String) → IsValid (first_book p symbol)
  unfolding first_book
  first_book-IsValid symbol = apply_snapshot-IsValid Orderbook.new _ _

  next_book-IsValid :
      (counter : ℕ) (symbol : String) (book : Orderbook D)
      → IsValid book
      → IsValid (next_book p counter symbol book)
  unfolding next_book
  next_book-IsValid counter symbol book b =
      truncate-IsValid 10 _ (
        holds_if IsValid _ _ _ (apply_updates-IsValid book _ _ b)
          (apply_updates-IsValid book _ _ b))

module _ {D F : Type 0} ⦃d : Decimal D⦄ (p : Products D) (f : Float F) where
  init_symbols-IsSound :
      (symbols : List String) (s : AppState D F) → IsSound s → IsSound (init_symbols p f symbols s)
  unfolding init_symbol
  init_symbols-IsSound [] s v = v
  init_symbols-IsSound (symbol ∷ symbols) s v = init_symbols-IsSound symbols _ (
    v.0,
    v.1,
    v.2,
    v.3,
    Every-insert IsValid symbol _ s.orderbooks (first_book-IsValid p symbol) v.4,
    v.5,
  )

  pub mock_begin-IsSound :
      (now : Time) (symbols : List String) (s : AppState D F)
      → IsSound s
      → IsSound (begin p f now symbols s)
  unfolding begin
  mock_begin-IsSound now symbols s v =
      let made = init_symbols p f symbols s in
      let joined = push_event now connected made in
      let listed = push_event now subscribed_instrument joined in
      push_event-IsSound now subscribed_book listed (
        push_event-IsSound now subscribed_instrument joined
          (push_event-IsSound now connected made (init_symbols-IsSound symbols s v)))

  move_book-IsSound :
      (counter : ℕ) (symbol : String) (o : Option (Orderbook D)) (s : AppState D F)
      → IfSome IsValid o
      → IsSound s
      → IsSound (move_book p f counter symbol o s)
  move_book-IsSound counter symbol none s b v = v
  move_book-IsSound counter symbol (some book) s b v = (
    v.0,
    v.1,
    v.2,
    v.3,
    Every-insert IsValid symbol _ s.orderbooks (next_book-IsValid p counter symbol book b) v.4,
    v.5,
  )

  with_health-IsSound :
      (ten : F) (counter : ℕ) (r : Reading) (symbol : String) (o : Option (SymbolHealth F))
      (s : AppState D F)
      → IsSound s
      → IsSound (with_health p f ten counter r symbol o s)
  with_health-IsSound ten counter r symbol none s v = v
  with_health-IsSound ten counter r symbol (some h) s v =
      push_event-IsSound r.logged _ (move_book p f counter symbol (get symbol s.orderbooks) s) (
        move_book-IsSound counter symbol (get symbol s.orderbooks) s
          (Every-get IsValid symbol s.orderbooks v.4) v)

  -- A tick of the generator keeps the shared state sound.
  pub tick-IsSound :
      (ten : F) (counter : ℕ) (clock : String → Reading) (symbols : List String) (s : AppState D F)
      → IsSound s
      → IsSound (tick p f ten counter clock symbols s)
  unfolding tick tick_symbol
  tick-IsSound ten counter clock [] s v = v
  tick-IsSound ten counter clock (symbol ∷ symbols) s v =
      let r = clock symbol in
      let recorded = record_if_enabled r.recorded r.frame s in
      tick-IsSound ten counter clock symbols _ (
        with_health-IsSound ten counter r symbol (get symbol recorded.health) recorded
          (record_if_enabled-IsSound r.recorded r.frame s v))
