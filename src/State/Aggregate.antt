-- ===== src/State/Aggregate.antt =====
-- `get_aggregated_events`: consecutive ChecksumOk of one symbol become one line of the log panel. A
-- text that `format!` makes is its template and its arguments.
pub mod Lines
use k_blackbox.Base.{
  ℕ, zero, suc, ◌+◌, ◌≤◌, ◌≡◌, refl, List, [], ◌∷◌, Bool, false, String, str_eq, length, drop,
  length-drop, ltb, arith, if◌then◌else◌,
}
use k_blackbox.Words.{Time}
use k_blackbox.State.{
  AppState, UiEvent, UiEventLogEntry, get_events, checksum_ok, checksum_mismatch, incident_exported,
  incident_captured, fault_injected,
}

-- crates/blackbox-server/src/tui/widgets.rs.
pub data EventColor : Type 0 where
  normal info warning failure : EventColor

pub data Arg : Type 0 where
  text : String → Arg
  number : ℕ → Arg
  debug : UiEvent → Arg

pub record AggregatedEvent : Type 0 where
  pub timestamp : Time
  pub template : String
  pub args : List Arg
  pub color : EventColor

abbrev pub is_ok_for : String → UiEvent → Bool
is_ok_for symbol (checksum_ok s) = str_eq s symbol
is_ok_for symbol _ = false

-- The inner loop: how many of the events that follow continue the run.
unfoldable pub run_length : String → List UiEventLogEntry → ℕ
run_length symbol [] = 0
run_length symbol (e ∷ es) =
    let rest = suc (run_length symbol es) in if is_ok_for symbol e.event then rest else 0

abbrev pub plain : Time → String → List Arg → EventColor → AggregatedEvent × ℕ
plain at template args color =
    (record { timestamp = at; template = template; args = args; color = color }, 0)

-- The line for an event, and how many of the events after it the line covers too.
unfoldable pub line_of : Time → List UiEventLogEntry → UiEvent → AggregatedEvent × ℕ
line_of at es (checksum_ok symbol) =
    if ltb 1 (suc (run_length symbol es))
    then (
      record {
        timestamp = at;
        template = "CHECKSUM_OK {} x{}";
        args = text symbol ∷ number (suc (run_length symbol es)) ∷ [];
        color = normal;
      },
      run_length symbol es,
    )
    else plain at "CHECKSUM_OK {}" (text symbol ∷ []) normal
line_of at es (checksum_mismatch symbol) =
    plain at "CHECKSUM_MISMATCH {}" (text symbol ∷ []) failure
line_of at es (incident_exported path) = plain at "INCIDENT_EXPORTED {}" (text path ∷ []) info
line_of at es (incident_captured id reason) =
    plain at "INCIDENT_CAPTURED {} ({})" (text id ∷ text reason ∷ []) failure
line_of at es (fault_injected fault_type symbol) =
    plain at "FAULT_INJECTED {} {}" (text fault_type ∷ text symbol ∷ []) warning
line_of at es other = plain at "{:?}" (debug other ∷ []) normal

-- The outer loop pushes one line a turn, up to the limit.
unfoldable pub aggregate : ℕ → List UiEventLogEntry → List AggregatedEvent
aggregate zero es = []
aggregate (suc room) [] = []
aggregate (suc room) (e ∷ es) =
    let (line, covered) = line_of e.timestamp es e.event in line ∷ aggregate room (drop covered es)

unfoldable pub get_aggregated_events : {D F : Type 0} → ℕ → AppState D F → List AggregatedEvent
get_aggregated_events limit s = aggregate limit (get_events 1000 s)
