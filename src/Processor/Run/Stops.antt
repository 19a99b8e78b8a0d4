-- ===== src/Processor/Run/Stops.antt =====
-- crates/blackbox-server/src/main.rs: when a run of events stops the loop of `run` for ever.
use k_blackbox.Base.{ℕ, ◌≡◌, ◌↔◌, refl, List, [], ◌∷◌, String}
use k_blackbox.Decimal.{Decimal}
use k_blackbox.Words.{Float}
use k_blackbox.Checksum.{Hasher}
use k_blackbox.Export.{Encoder}
use k_blackbox.Client.Connection.{WsEvent}
use k_blackbox.Processor.Defs.{Clock}
use k_blackbox.Processor.Run.{
  RunState, Outcome, next, deadlock, after_outcome, process_event, process_ws_events,
}
use k_blackbox.Processor.Run.Mismatch.{IsMismatch, deadlock_iff_IsMismatch}

module _ {D F N : Type 0} ⦃d : Decimal D⦄ (f : Float F) (h : Hasher) (enc : Encoder F N)
    (format_id : ℕ → String → String) where
  -- Some event is a mismatch in the state that the events before it lead to.
  pub data MeetsMismatch : List (Clock × WsEvent D) → RunState D F N → Type 0 where
    here :
        {clock : Clock} {e : WsEvent D} {es : List (Clock × WsEvent D)} {r : RunState D F N}
        → IsMismatch h e r
        → MeetsMismatch ((clock, e) ∷ es) r
    after :
        {clock : Clock} {e : WsEvent D} {es : List (Clock × WsEvent D)} {r r' : RunState D F N}
        → process_event f h enc format_id clock e r ≡ next r'
        → MeetsMismatch es r'
        → MeetsMismatch ((clock, e) ∷ es) r

  meets-of_stop :
      (es : List (Clock × WsEvent D)) (r : RunState D F N)
      → process_ws_events f h enc format_id es r ≡ deadlock
      → MeetsMismatch es r
  unfolding process_ws_events
  meets-of_stop [] r p = absurd (cc)
  meets-of_stop ((clock, e) ∷ es) r p =
      by_outcome (meets-of_stop es) (process_event f h enc format_id clock e r) refl p
    where
      by_outcome :
          ((r' : RunState D F N)
            → process_ws_events f h enc format_id es r' ≡ deadlock
            → MeetsMismatch es r')
          → (o : Outcome (RunState D F N)) → process_event f h enc format_id clock e r ≡ o
          → after_outcome (process_ws_events f h enc format_id es) o ≡ deadlock
          → MeetsMismatch ((clock, e) ∷ es) r
      by_outcome later (next r') q p = after q (later r' p)
      by_outcome later deadlock q p =
          here ((deadlock_iff_IsMismatch f h enc format_id clock e r).0 q)

  stop-of_meets :
      {es : List (Clock × WsEvent D)} {r : RunState D F N}
      → MeetsMismatch es r
      → process_ws_events f h enc format_id es r ≡ deadlock
  unfolding process_ws_events
  stop-of_meets (here {clock} {e} {es} {r} m) =
      rw ((deadlock_iff_IsMismatch f h enc format_id clock e r).1 m) refl
  stop-of_meets (after q m) = rw q (stop-of_meets m)

  -- The loop of `run` stops for ever exactly if one of the events is a mismatch in the state in which
  -- it comes: a snapshot of a book, or an update of a stored book, whose checksum differs from that of
  -- the book after the event, for a symbol whose instrument is known. Otherwise it handles all of them.
  pub process_ws_events-deadlock :
      (es : List (Clock × WsEvent D)) (r : RunState D F N)
      → (process_ws_events f h enc format_id es r ≡ deadlock) ↔ MeetsMismatch es r
  process_ws_events-deadlock es r = (meets-of_stop es r, stop-of_meets)
