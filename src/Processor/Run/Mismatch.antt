-- ===== src/Processor/Run/Mismatch.antt =====
-- crates/blackbox-server/src/main.rs: what a mismatch does to `process_ws_events`.
use k_blackbox.Base.{
  ℕ, ◌≡◌, ◌↔◌, refl, List, Bool, true, false, Option, none, some, subst, sym, ◌∙◌, some-injective,
  String, arith,
}
use k_blackbox.Decimal.{Decimal}
use k_blackbox.Words.{Float}
use k_blackbox.DashMap.{Map, get}
use k_blackbox.Types.{InstrumentInfo}
use k_blackbox.Orderbook.{Orderbook}
use k_blackbox.Checksum.{Hasher, verify_checksum}
use k_blackbox.Export.{Encoder}
use k_blackbox.Client.Connection.{
  WsEvent, connected, disconnected, rate_limit_exceeded, frame, error, instrument_snapshot,
  book_snapshot, book_update,
}
use k_blackbox.Processor.Defs.{Clock, snapshot_book, updated_book, store_book}
use k_blackbox.Processor.Run.{
  RunState, Outcome, next, deadlock, Held, after_outcome, judge, verify_with, verify_book, put_book,
  on_snapshot, update_book, on_update, process_event,
}

module _ {D : Type 0} ⦃d : Decimal D⦄ (h : Hasher) where
  -- The book came with a checksum, its instrument is known, and the checksum is another one.
  abbrev pub Mismatched : String → Orderbook D → Option ℕ → Map (InstrumentInfo D) → Type 0
  Mismatched symbol book none m = ⊥
  Mismatched symbol book (some expected) m =
      (inst : InstrumentInfo D) × (get symbol m ≡ some inst)
      × (verify_checksum h book expected inst.price_precision inst.qty_precision ≡ false)

module _ {D F N : Type 0} ⦃d : Decimal D⦄ (h : Hasher) where
  abbrev pub IsMismatch : WsEvent D → RunState D F N → Type 0
  IsMismatch (book_snapshot symbol bids asks checksum) r =
      Mismatched h symbol (snapshot_book symbol bids asks r.state) checksum r.state.instruments
  IsMismatch (book_update symbol bids asks checksum ts) r =
      (old : Orderbook D) × (get symbol r.state.orderbooks ≡ some old)
      × Mismatched h symbol (updated_book symbol bids asks old r.state) checksum r.state.instruments
  IsMismatch connected r = ⊥
  IsMismatch disconnected r = ⊥
  IsMismatch rate_limit_exceeded r = ⊥
  IsMismatch (frame raw) r = ⊥
  IsMismatch (error e) r = ⊥
  IsMismatch (instrument_snapshot infos) r = ⊥

module _ {D F N : Type 0} ⦃d : Decimal D⦄ (f : Float F) (h : Hasher) (enc : Encoder F N)
    (format_id : ℕ → String → String) where
  judge-deadlock :
      (held : Held) (clock : Clock) (symbol : String) (expected : ℕ) (ok : Bool)
      (r : RunState D F N)
      → held.health ≡ true
      → (judge f h enc format_id held clock symbol expected ok r ≡ deadlock) ↔ (ok ≡ false)
  unfolding judge
  judge-deadlock held clock symbol expected true r e = ground arith
  judge-deadlock held clock symbol expected false r e = ((λ _. refl), (λ _. rw e refl))

  verify_book-deadlock :
      (held : Held) (clock : Clock) (symbol : String) (book : Orderbook D) (checksum : Option ℕ)
      (r : RunState D F N)
      → held.health ≡ true
      → (verify_book f h enc format_id held clock symbol book checksum r ≡ deadlock)
        ↔ Mismatched h symbol book checksum r.state.instruments
  verify_book-deadlock held clock symbol book none r e = ground arith
  verify_book-deadlock held clock symbol book (some expected) r e =
      with_inst (get symbol r.state.instruments) refl
    where
      with_inst :
          (o : Option (InstrumentInfo D))
          → get symbol r.state.instruments ≡ o
          → (verify_with f h enc format_id held clock symbol book expected o r ≡ deadlock)
            ↔ Mismatched h symbol book (some expected) r.state.instruments
      with_inst none e' = ((λ k. cc), (λ (x, ex, v). cc))
      with_inst (some inst) e' =
          let j =
            judge-deadlock held clock symbol expected
              (verify_checksum h book expected inst.price_precision inst.qty_precision) r e in
          (
            (λ k. (inst, e', j.0 k)),
            (λ (x, ex, v). j.1 (
                subst
                  (λ y. verify_checksum h book expected y.price_precision y.qty_precision ≡ false)
                  (some-injective _ _ (sym ex ∙ e')) v)),
          )

  stored_after :
      (symbol : String) (book : Orderbook D) (o : Outcome (RunState D F N))
      → (after_outcome (λ r. next (put_book symbol book r)) o ≡ deadlock) ↔ (o ≡ deadlock)
  stored_after symbol book (next r) = ((λ k. cc), (λ k. cc))
  stored_after symbol book deadlock = ((λ k. refl), (λ k. refl))

  on_update-deadlock :
      (clock : Clock) (symbol : String) (bids asks : List (D × D)) (checksum : Option ℕ)
      (o : Option (Orderbook D)) (r : RunState D F N)
      → get symbol r.state.orderbooks ≡ o
      → (update_book f h enc format_id clock symbol bids asks checksum o r ≡ deadlock) ↔ (
          (old : Orderbook D) × (get symbol r.state.orderbooks ≡ some old)
          × Mismatched h symbol
              (updated_book symbol bids asks old r.state)
              checksum
              r.state.instruments)
  unfolding store_book
  on_update-deadlock clock symbol bids asks checksum none r e = ((λ k. cc), (λ (x, ex, v). cc))
  on_update-deadlock clock symbol bids asks checksum (some old) r e =
      let book = updated_book symbol bids asks old r.state in
      let j =
        verify_book-deadlock (record { health = true; orderbooks = true }) clock symbol book
          checksum (put_book symbol book r) refl in
      (
        (λ k. (old, e, j.0 k)),
        (λ (x, ex, v). j.1 (
            subst
              (λ y.
                Mismatched h symbol (updated_book symbol bids asks y r.state) checksum
                  r.state.instruments)
              (some-injective _ _ (sym ex ∙ e)) v)),
      )

  -- Handling one event never returns exactly when the event is a mismatch: a snapshot of a book, or
  -- an update of a stored book, whose checksum differs from that of the book after the event, for a
  -- symbol whose instrument is known. Any other event is handled to its end.
  pub deadlock_iff_IsMismatch :
      (clock : Clock) (e : WsEvent D) (r : RunState D F N)
      → (process_event f h enc format_id clock e r ≡ deadlock) ↔ IsMismatch h e r
  unfolding process_event on_snapshot on_update
  deadlock_iff_IsMismatch clock (book_snapshot symbol bids asks checksum) r =
      let book = snapshot_book symbol bids asks r.state in
      let held : Held = record { health = true; orderbooks = false } in
      let o = verify_book f h enc format_id held clock symbol book checksum r in
      let a = stored_after symbol book o in
      let b = verify_book-deadlock held clock symbol book checksum r refl in
      ((λ k. b.0 (a.0 k)), (λ v. a.1 (b.1 v)))
  deadlock_iff_IsMismatch clock (book_update symbol bids asks checksum ts) r =
      on_update-deadlock clock symbol bids asks checksum (get symbol r.state.orderbooks) r refl
  deadlock_iff_IsMismatch clock connected r = ((λ k. cc), (λ v. absurd v))
  deadlock_iff_IsMismatch clock disconnected r = ((λ k. cc), (λ v. absurd v))
  deadlock_iff_IsMismatch clock rate_limit_exceeded r = ((λ k. cc), (λ v. absurd v))
  deadlock_iff_IsMismatch clock (frame raw) r = ((λ k. cc), (λ v. absurd v))
  deadlock_iff_IsMismatch clock (error e) r = ((λ k. cc), (λ v. absurd v))
  deadlock_iff_IsMismatch clock (instrument_snapshot infos) r = ((λ k. cc), (λ v. absurd v))
