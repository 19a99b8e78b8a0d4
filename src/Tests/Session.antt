-- ===== src/Tests/Session.antt =====
-- A session with one symbol, its clocks and its tools.
use k_blackbox.Base.{ℕ, [], ◌∷◌, false, none, some, String}
use k_blackbox.Json.{null}
use k_blackbox.Integrity.Injector
use k_blackbox.State.{AppState}
use k_blackbox.Incident.{IncidentManager}
use k_blackbox.Export.{Encoder}
use k_blackbox.Processor.Defs.{Clock}
use k_blackbox.Processor.Capture.{Tools, LogClock, LoggedState}
use k_blackbox.Tests.Values.{Fixed, fixed, thousandths, hasher, small_book, bitcoin}

abbrev pub base_clock : Clock
base_clock = record {
  recorded = 1;
  stored = 2;
  message = 3;
  failed = 4;
  incident_id = 5;
  incident = 6;
  exported = 7;
}

abbrev pub log_clock : LogClock
log_clock = record {
  base = base_clock;
  state_recorded = 1;
  first_log = 2;
  proof_made = 3;
  readings = record { started = 4; computed = 5; verified = 6; mismatched = 7 };
  verdict_log = 8;
  resync_asked = 9;
  resync_noted = 10;
  resync_log = 11;
  meta_made = 12;
  incident_log = 13;
}

abbrev pub format_id : ℕ → String → String
format_id n reason = reason

abbrev pub encoder : Encoder ℕ ℕ
encoder = record { of_u32 = λ n. n; text = λ t. null; health = λ h. null }

abbrev pub tools : Tools Fixed ℕ ℕ
tools = record {
  float = thousandths;
  hasher = hasher;
  of_u32 = λ n. n;
  from_str = λ s. none;
  parse = λ t. some (fixed 100);
  format_id = format_id;
}

-- The state of a session that has the small book of one known instrument.
abbrev pub session : AppState Fixed ℕ
session = record {
  orderbooks = ("BTC/USD", small_book) ∷ [];
  instruments = ("BTC/USD", bitcoin) ∷ [];
  health = [];
  depths = ("BTC/USD", 2) ∷ [];
  start_time = 0;
  last_frames = [];
  per_symbol_frames = [];
  event_log = [];
  last_incident = none;
  incident_count = 0;
  integrity_proofs = [];
  fault_injector = record { enabled = false; symbol = none; fault_type = Injector.mutate_qty };
  requested_symbols = "BTC/USD" ∷ [];
  recording_enabled = false;
  recording_path = none;
  recorder = none;
  last_resync = [];
}

abbrev pub manager : IncidentManager ℕ
manager = record { incidents = []; last_incident = none; incidents_dir = "incidents" }

abbrev pub logged_state : LoggedState Fixed ℕ ℕ
logged_state = record { state = session; manager = manager; recorder = none }
