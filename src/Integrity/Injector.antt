-- ===== src/Integrity/Injector.antt =====
-- crates/blackbox-server/src/integrity/fault.rs: a fault that is armed once for one symbol. The
-- atomics and locks are read and written one after the other; a call runs without interleaving.
use k_blackbox.Base.{
  ◌≡◌, refl, Bool, true, false, Option, none, some, String, str_eq, if◌then◌else◌,
}

pub data FaultType : Type 0 where
  mutate_qty drop_update : FaultType

pub record FaultInjector : Type 0 where
  pub enabled : Bool
  pub symbol : Option String
  pub fault_type : FaultType

unfoldable pub new : FaultInjector
new = record { enabled = false; symbol = none; fault_type = mutate_qty }

unfoldable pub trigger : String → FaultInjector → FaultInjector
trigger s i = record i { enabled = true; symbol = some s }

abbrev pub targets : String → Option String → Bool
targets s none = false
targets s (some t) = str_eq t s

unfoldable pub should_inject : String → FaultInjector → Bool
should_inject s i = if i.enabled then targets s i.symbol else false

abbrev pub with_type : FaultType → Option String → Option (String × FaultType)
with_type t none = none
with_type t (some s) = some (s, t)

-- The result and the injector after it.
unfoldable pub consume : FaultInjector → Option (String × FaultType) × FaultInjector
consume i =
    if i.enabled then (with_type i.fault_type i.symbol, record i { enabled = false }) else (none, i)

-- An armed fault is wanted at its own symbol and at no other, is handed out once, and is gone after.
pub consume-trigger :
    (s : String) (i : FaultInjector)
    → ((t : String) → should_inject t (trigger s i) ≡ str_eq s t)
      × ((consume (trigger s i)).0 ≡ some (s, i.fault_type))
      × ((consume (consume (trigger s i)).1).0 ≡ none)
unfolding should_inject trigger consume
consume-trigger s i = ((λ t. refl), refl, refl)
