-- ===== src/Processor/Run/Books.antt =====
-- crates/blackbox-server/src/main.rs: the books of the loop of `run`.
use k_blackbox.Base.{
  ℕ, ◌≡◌, refl, ap, ap₂, ◌∙◌, List, [], ◌∷◌, Bool, true, false, Bool-cases, inl, inr, Option, none,
  some, String, eq_iff, map, arith,
}
use k_blackbox.Decimal.{Decimal, Level}
use k_blackbox.Words.{Float}
use k_blackbox.DashMap.{Map, get, insert, get_or, get-insert}
use k_blackbox.Types.{InstrumentInfo}
use k_blackbox.Orderbook.{Orderbook}
use k_blackbox.Checksum.{Hasher}
use k_blackbox.Export.{Encoder}
use k_blackbox.State.{get_depth}
use k_blackbox.Client.Connection.{
  WsEvent, connected, disconnected, rate_limit_exceeded, frame, error, instrument_snapshot,
  book_snapshot, book_update,
}
use k_blackbox.Processor.Defs.{
  Clock, snapshot_book, updated_book, store_book, store_instruments, store_frame, judge_health,
}
use k_blackbox.Processor.Run.{
  RunState, Outcome, next, deadlock, Held, after_outcome, judge, verify_with, verify_book, put_book,
  on_snapshot, update_book, on_update, process_event, process_ws_events,
}
use k_blackbox.Processor.Books.{book_step, book_after}

module _ {D F N : Type 0} where
  abbrev core : RunState D F N → Map (Orderbook D) × Map ℕ
  core r = (r.state.orderbooks, r.state.depths)

  -- If it is handled to its end, the books and the depths are as before.
  abbrev Keeps : Map (Orderbook D) × Map ℕ → Outcome (RunState D F N) → Type 0
  Keeps c (next r) = core r ≡ c
  Keeps c deadlock = Unit

module _ {D F N : Type 0} ⦃d : Decimal D⦄ (f : Float F) (h : Hasher) (enc : Encoder F N)
    (format_id : ℕ → String → String) where
  judge-Keeps :
      (held : Held) (clock : Clock) (symbol : String) (expected : ℕ) (ok : Bool)
      (r : RunState D F N)
      → Keeps (core r) (judge f h enc format_id held clock symbol expected ok r)
  unfolding judge judge_health
  judge-Keeps held clock symbol expected true r = refl
  judge-Keeps held clock symbol expected false r = elim (Bool-cases held.health) [
    | inl e ↦ rw e tt
    | inr e ↦ rw e (elim (Bool-cases held.orderbooks) [ inl e' ↦ rw e' tt | inr e' ↦ rw e' refl ])
  ]

  verify_with-Keeps :
      (held : Held) (clock : Clock) (symbol : String) (book : Orderbook D) (expected : ℕ)
      (o : Option (InstrumentInfo D)) (r : RunState D F N)
      → Keeps (core r) (verify_with f h enc format_id held clock symbol book expected o r)
  verify_with-Keeps held clock symbol book expected none r = refl
  verify_with-Keeps held clock symbol book expected (some inst) r =
      judge-Keeps held clock symbol expected _ r

  verify_book-Keeps :
      (held : Held) (clock : Clock) (symbol : String) (book : Orderbook D) (checksum : Option ℕ)
      (r : RunState D F N)
      → Keeps (core r) (verify_book f h enc format_id held clock symbol book checksum r)
  verify_book-Keeps held clock symbol book none r = refl
  verify_book-Keeps held clock symbol book (some expected) r =
      verify_with-Keeps held clock symbol book expected (get symbol r.state.instruments) r

module _ {D F N : Type 0} ⦃d : Decimal D⦄ where
  -- If it is handled to its end, the book of `symbol` is what the event makes of it.
  abbrev Steps : String → WsEvent D → RunState D F N → Outcome (RunState D F N) → Type 0
  Steps symbol e r (next r') =
      (get symbol r'.state.orderbooks
        ≡ book_step (get_depth symbol r.state) symbol e (get symbol r.state.orderbooks))
      × (r'.state.depths ≡ r.state.depths)
  Steps symbol e r deadlock = Unit

  Steps-stored :
      (symbol at : String) (e : WsEvent D) (book : Orderbook D) (r : RunState D F N)
      (o : Outcome (RunState D F N))
      → get symbol (insert at book r.state.orderbooks)
        ≡ book_step (get_depth symbol r.state) symbol e (get symbol r.state.orderbooks)
      → Keeps (core r) o
      → Steps symbol e r (after_outcome (λ r. next (put_book at book r)) o)
  unfolding store_book
  Steps-stored symbol at e book r (next r') g k =
      (ap (λ c. get symbol (insert at book c.0)) k ∙ g, ap (λ c. c.1) k)
  Steps-stored symbol at e book r deadlock g k = tt

  Steps-kept :
      (symbol : String) (e : WsEvent D) (r : RunState D F N) (m : Map (Orderbook D))
      (o : Outcome (RunState D F N))
      → get symbol m ≡ book_step (get_depth symbol r.state) symbol e (get symbol r.state.orderbooks)
      → Keeps (m, r.state.depths) o
      → Steps symbol e r o
  Steps-kept symbol e r m (next r') g k = (ap (λ c. get symbol c.0) k ∙ g, ap (λ c. c.1) k)
  Steps-kept symbol e r m deadlock g k = tt

module _ {D F N : Type 0} ⦃d : Decimal D⦄ (f : Float F) (h : Hasher) (enc : Encoder F N)
    (format_id : ℕ → String → String) (symbol : String) where
  on_snapshot-Steps :
      (clock : Clock) (at : String) (bids asks : List (Level D)) (checksum : Option ℕ)
      (r : RunState D F N)
      → Steps symbol
          (book_snapshot at bids asks checksum)
          r
          (on_snapshot f h enc format_id clock at bids asks checksum r)
  unfolding on_snapshot snapshot_book get_depth
  on_snapshot-Steps clock at bids asks checksum r =
      let book = snapshot_book at bids asks r.state in
      Steps-stored symbol at (book_snapshot at bids asks checksum) book r _
        (ground (arith, get-insert at symbol book r.state.orderbooks, eq_iff at symbol))
        (verify_book-Keeps f h enc format_id (record { health = true; orderbooks = false }) clock at
          book checksum r)

  update_book-Steps :
      (clock : Clock) (at : String) (bids asks : List (Level D)) (checksum : Option ℕ)
      (ts : Option String) (o : Option (Orderbook D)) (r : RunState D F N)
      → get at r.state.orderbooks ≡ o
      → Steps symbol
          (book_update at bids asks checksum ts)
          r
          (update_book f h enc format_id clock at bids asks checksum o r)
  unfolding updated_book get_depth store_book
  update_book-Steps clock at bids asks checksum ts none r e =
      (ground (arith, eq_iff at symbol), refl)
  update_book-Steps clock at bids asks checksum ts (some old) r e =
      let book = updated_book at bids asks old r.state in
      Steps-kept symbol (book_update at bids asks checksum ts) r (insert at book r.state.orderbooks)
        _ (ground (arith, get-insert at symbol book r.state.orderbooks, eq_iff at symbol))
        (verify_book-Keeps f h enc format_id (record { health = true; orderbooks = true }) clock at
          book checksum (put_book at book r))

  event-Steps :
      (clock : Clock) (e : WsEvent D) (r : RunState D F N)
      → Steps symbol e r (process_event f h enc format_id clock e r)
  unfolding process_event on_update store_instruments store_frame
  event-Steps clock (book_snapshot at bids asks checksum) r =
      on_snapshot-Steps clock at bids asks checksum r
  event-Steps clock (book_update at bids asks checksum ts) r =
      update_book-Steps clock at bids asks checksum ts (get at r.state.orderbooks) r refl
  event-Steps clock (frame raw) r = (refl, refl)
  event-Steps clock connected r = (refl, refl)
  event-Steps clock disconnected r = (refl, refl)
  event-Steps clock rate_limit_exceeded r = (refl, refl)
  event-Steps clock (error e) r = (refl, refl)
  event-Steps clock (instrument_snapshot infos) r = (refl, refl)

  after_first :
      (e : WsEvent D) (es : List (Clock × WsEvent D)) (r r' : RunState D F N)
      (o : Outcome (RunState D F N))
      → Steps symbol e r o
      → after_outcome (process_ws_events f h enc format_id es) o ≡ next r'
      → (mid : RunState D F N) × (process_ws_events f h enc format_id es mid ≡ next r')
        × Steps symbol e r (next mid)
  after_first e es r r' (next mid) s p = (mid, p, s)
  after_first e es r r' deadlock s p = cc

  -- Where the loop of `run` handles all events to their end, the book of each symbol is what the
  -- events of that symbol say, at the depth of the symbol: a snapshot replaces the book and an update
  -- changes the book there is. No other event touches it.
  pub get-process_ws_events-next :
      (es : List (Clock × WsEvent D)) (r r' : RunState D F N)
      → process_ws_events f h enc format_id es r ≡ next r'
      → get symbol r'.state.orderbooks
        ≡ book_after
            (get_depth symbol r.state)
            symbol
            (map (λ e. e.1) es)
            (get symbol r.state.orderbooks)
  unfolding process_ws_events book_after get_depth
  get-process_ws_events-next [] r r' p = ground arith
  get-process_ws_events-next ((clock, e) ∷ es) r r' p =
      let (mid, q, s) =
        after_first e es r r' (process_event f h enc format_id clock e r) (event-Steps clock e r)
          p in
      get-process_ws_events-next es mid r' q
      ∙ ap₂ (λ m o. book_after (get_or 100 symbol m) symbol (map (λ e. e.1) es) o) s.1 s.0
