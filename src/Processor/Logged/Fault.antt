-- ===== src/Processor/Logged/Fault.antt =====
-- crates/blackbox-server/src/main.rs and integrity/fault.rs: which update takes a fault that waits
-- for its symbol.
use k_blackbox.Base.{
  ℕ, ◌≡◌, ◌≢◌, refl, List, false, Bool-cases, inl, inr, Option, String, str_eq, eq_iff,
}
use k_blackbox.Decimal.{Decimal, Level}
use k_blackbox.DashMap.{get}
use k_blackbox.Integrity.Injector.{FaultInjector, consume, trigger}
use k_blackbox.Client.Connection.{WsEvent, book_update}
use k_blackbox.Processor.Capture.{Tools, LogClock, LoggedState}
use k_blackbox.Processor.Logged.{apply_update, on_update, process_event}
use k_blackbox.Processor.Logged.Books.{update_book-injector}

module _ {D F N : Type 0} where
  abbrev pub with_injector : FaultInjector → LoggedState D F N → LoggedState D F N
  with_injector i l = record l { state = record l.state { fault_injector = i } }

module _ {D F N : Type 0} ⦃d : Decimal D⦄ (tools : Tools D F N) where
  -- A fault that is armed for one symbol does not outlive an update of another: the update is
  -- handled as if the fault had been disarmed before, and the fault is disarmed after it.
  pub fault_lost :
      (clock : LogClock) (target symbol : String) (i : FaultInjector) (bids asks : List (Level D))
      (checksum : Option ℕ) (ts : Option String) (l : LoggedState D F N)
      → target ≢ symbol
      → let disarmed : FaultInjector = record (trigger target i) { enabled = false } in
        let e : WsEvent D = book_update symbol bids asks checksum ts in
        let after = process_event tools clock e (with_injector (trigger target i) l) in
        (after ≡ process_event tools clock e (with_injector disarmed l))
        × (after.state.fault_injector ≡ disarmed)
  unfolding process_event on_update consume trigger apply_update
  fault_lost clock target symbol i bids asks checksum ts l n =
      elim (Bool-cases (str_eq target symbol)) [
        | inl e ↦ absurd (n ((eq_iff target symbol).0 e))
        | inr e ↦ rw e (
          refl,
          update_book-injector tools clock symbol bids asks checksum (get symbol l.state.orderbooks)
              (with_injector (record (trigger target i) { enabled = false }) l),
        )
      ]
