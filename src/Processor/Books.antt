-- ===== src/Processor/Books.antt =====
-- crates/blackbox-server/src/main.rs: what a stream of events makes of the book of one symbol, apart
-- from the rest of the state.
use k_blackbox.Base.{
  ℕ, ◌≤◌, List, [], ◌∷◌, Bool-cases, inl, inr, Option, none, some, String, str_eq, if◌then◌else◌,
  arith,
}
use k_blackbox.Decimal.{Decimal, Level}
use k_blackbox.Orderbook.{Orderbook, apply_snapshot, apply_updates, truncate}
use k_blackbox.Orderbook
use k_blackbox.Orderbook.Invariant.{
  IsValid, apply_snapshot-IsValid, apply_updates-IsValid, truncate-IsValid,
}
use k_blackbox.Orderbook.Truncate.{depth-truncate}
use k_blackbox.Client.Connection.{
  WsEvent, connected, disconnected, rate_limit_exceeded, frame, error, instrument_snapshot,
  book_snapshot, book_update,
}

module _ {D : Type 0} ⦃d : Decimal D⦄ where
  abbrev pub update_old :
      ℕ → List (Level D) → List (Level D) → Option (Orderbook D) → Option (Orderbook D)
  update_old depth bids asks none = none
  update_old depth bids asks (some old) = some (truncate depth (apply_updates old bids asks))

  -- The book of `symbol` after an event: a snapshot replaces it, an update changes the one there is.
  abbrev pub book_step : ℕ → String → WsEvent D → Option (Orderbook D) → Option (Orderbook D)
  book_step depth symbol (book_snapshot s bids asks checksum) o =
      if str_eq s symbol then some (truncate depth (apply_snapshot Orderbook.new bids asks)) else o
  book_step depth symbol (book_update s bids asks checksum ts) o =
      if str_eq s symbol then update_old depth bids asks o else o
  book_step depth symbol connected o = o
  book_step depth symbol disconnected o = o
  book_step depth symbol rate_limit_exceeded o = o
  book_step depth symbol (frame raw) o = o
  book_step depth symbol (error e) o = o
  book_step depth symbol (instrument_snapshot infos) o = o

  unfoldable pub book_after :
      ℕ → String → List (WsEvent D) → Option (Orderbook D) → Option (Orderbook D)
  book_after depth symbol [] o = o
  book_after depth symbol (e ∷ es) o = book_after depth symbol es (book_step depth symbol e o)

  -- A book within the depth, in order.
  abbrev pub IsKept : ℕ → Option (Orderbook D) → Type 0
  IsKept depth none = Unit
  IsKept depth (some book) =
      IsValid book × ((Orderbook.depth book).0 ≤ depth) × ((Orderbook.depth book).1 ≤ depth)

  truncated-IsKept : (n : ℕ) (book : Orderbook D) → IsValid book → IsKept n (some (truncate n book))
  truncated-IsKept n book v =
      let t = depth-truncate n book v in
      (truncate-IsValid n book v, omega (arith, t.0), omega (arith, t.1))

  book_step-IsKept :
      (depth : ℕ) (symbol : String) (e : WsEvent D) (o : Option (Orderbook D))
      → IsKept depth o
      → IsKept depth (book_step depth symbol e o)
  book_step-IsKept depth symbol (book_snapshot s bids asks checksum) o k =
      elim (Bool-cases (str_eq s symbol)) [
        | inl e ↦ rw e (truncated-IsKept depth _ (apply_snapshot-IsValid Orderbook.new bids asks))
        | inr e ↦ rw e k
      ]
  book_step-IsKept depth symbol (book_update s bids asks checksum ts) none k = ground arith
  book_step-IsKept depth symbol (book_update s bids asks checksum ts) (some book) k =
      elim (Bool-cases (str_eq s symbol)) [
        | inl e ↦ rw e (truncated-IsKept depth _ (apply_updates-IsValid book bids asks k.0))
        | inr e ↦ rw e k
      ]
  book_step-IsKept depth symbol connected o k = k
  book_step-IsKept depth symbol disconnected o k = k
  book_step-IsKept depth symbol rate_limit_exceeded o k = k
  book_step-IsKept depth symbol (frame raw) o k = k
  book_step-IsKept depth symbol (error e) o k = k
  book_step-IsKept depth symbol (instrument_snapshot infos) o k = k

  pub book_after-IsKept :
      (depth : ℕ) (symbol : String) (es : List (WsEvent D)) (o : Option (Orderbook D))
      → IsKept depth o
      → IsKept depth (book_after depth symbol es o)
  unfolding book_after
  book_after-IsKept depth symbol [] o k = k
  book_after-IsKept depth symbol (e ∷ es) o k =
      book_after-IsKept depth symbol es (book_step depth symbol e o)
        (book_step-IsKept depth symbol e o k)
