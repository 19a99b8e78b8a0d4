-- ===== src/State.antt =====
-- crates/blackbox-server/src/state.rs: the state that the tasks share. A lock or an atomic is the
-- value that it guards: each method takes and releases it in one go.
pub mod Events
pub mod Aggregate
pub mod Overall
use k_blackbox.Base.{
  ℕ, ◌+◌, ◌-◌, List, [], ◌∷◌, ◌++◌, Bool, true, false, Option, none, some, String, length, drop,
  leb, trim_front,
}
use k_blackbox.Words.{Time, seconds_since, inc_u64}
use k_blackbox.DashMap.{Map, get, insert, get_or, values, contains_key}
use k_blackbox.Types.{InstrumentInfo}
use k_blackbox.Orderbook.{Orderbook}
use k_blackbox.Health.{SymbolHealth}
use k_blackbox.Integrity.Injector.{FaultInjector}
use k_blackbox.Integrity.Injector
use k_blackbox.Integrity.Proof.{IntegrityProof, IncidentMeta}
use k_blackbox.Recorder.{Recorder}

pub data UiEvent : Type 0 where
  connected disconnected subscribed_instrument subscribed_book record_stopped : UiEvent
  checksum_ok checksum_mismatch resync_started resync_done : String → UiEvent
  record_started incident_exported error : String → UiEvent
  -- The id and the reason; the type and the symbol.
  incident_captured fault_injected : String → String → UiEvent

pub record UiEventLogEntry : Type 0 where
  pub timestamp : Time
  pub event : UiEvent

pub record AppState (D F : Type 0) : Type 0 where
  pub orderbooks : Map (Orderbook D)
  pub instruments : Map (InstrumentInfo D)
  pub health : Map (SymbolHealth F)
  pub depths : Map ℕ
  pub start_time : Time
  pub last_frames : List (Time × String)
  pub per_symbol_frames : Map (List String)
  pub event_log : List UiEventLogEntry
  pub last_incident : Option IncidentMeta
  pub incident_count : ℕ
  pub integrity_proofs : Map (IntegrityProof D)
  pub fault_injector : FaultInjector
  pub requested_symbols : List String
  pub recording_enabled : Bool
  pub recording_path : Option String
  pub recorder : Option Recorder
  pub last_resync : Map Time

module _ {D F : Type 0} where
  unfoldable pub new : Time → AppState D F
  new now = record {
    orderbooks = [];
    instruments = [];
    health = [];
    depths = [];
    start_time = now;
    last_frames = [];
    per_symbol_frames = [];
    event_log = [];
    last_incident = none;
    incident_count = 0;
    integrity_proofs = [];
    fault_injector = Injector.new;
    requested_symbols = [];
    recording_enabled = false;
    recording_path = none;
    recorder = none;
    last_resync = [];
  }

  unfoldable pub set_recording_enabled : Bool → AppState D F → AppState D F
  set_recording_enabled enabled s = record s { recording_enabled = enabled }

  unfoldable pub set_recording_path : Option String → AppState D F → AppState D F
  set_recording_path path s = record s { recording_path = path }

  unfoldable pub can_resync : Time → String → AppState D F → Bool
  can_resync now symbol s = elim (get symbol s.last_resync) [
    | some last ↦ leb 3 (seconds_since now last)
    | none ↦ true
  ]

  unfoldable pub record_resync : Time → String → AppState D F → AppState D F
  record_resync now symbol s = record s { last_resync = insert symbol now s.last_resync }

  unfoldable pub set_requested_symbols : List String → AppState D F → AppState D F
  set_requested_symbols symbols s = record s { requested_symbols = symbols }

  -- The buffer, and the state in which it exists.
  unfoldable pub get_or_create_frame_buffer : String → AppState D F → List String × AppState D F
  get_or_create_frame_buffer symbol s =
      let buffer = get_or [] symbol s.per_symbol_frames in
      (buffer, record s { per_symbol_frames = insert symbol buffer s.per_symbol_frames })

  unfoldable pub push_event : Time → UiEvent → AppState D F → AppState D F
  push_event now event s = record s {
    event_log = trim_front 500 (s.event_log ++ record { timestamp = now; event = event } ∷ []);
  }

  unfoldable pub get_events : ℕ → AppState D F → List UiEventLogEntry
  get_events limit s = drop (length s.event_log - limit) s.event_log

  unfoldable pub set_last_incident : IncidentMeta → AppState D F → AppState D F
  set_last_incident incident s = record s {
    incident_count = inc_u64 s.incident_count;
    last_incident = some incident;
  }

  unfoldable pub set_depth : String → ℕ → AppState D F → AppState D F
  set_depth symbol depth s = record s { depths = insert symbol depth s.depths }

  unfoldable pub get_depth : String → AppState D F → ℕ
  get_depth symbol s = get_or 100 symbol s.depths

  unfoldable pub uptime_seconds : Time → AppState D F → ℕ
  uptime_seconds now s = seconds_since now s.start_time
