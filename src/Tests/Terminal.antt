-- ===== src/Tests/Terminal.antt =====
-- The theorems on the terminal interface, the start and the tasks together, at concrete inputs.
use mathlib.Core.List.{Perm}
use mathlib.Core.List.Perm as Reordering
use k_blackbox.Base.{
  ℕ, ◌*◌, ◌≡◌, List, [], ◌∷◌, All, true, Option, none, some, String, codes, arith,
}
use k_blackbox.DashMap.{values}
use k_blackbox.Health.{SymbolHealth}
use k_blackbox.Health
use k_blackbox.Integrity.Proof.{IncidentMeta, new_meta}
use k_blackbox.State.{AppState}
use k_blackbox.State.Overall.{overall_health}
use k_blackbox.State.Overall.Order.{overall_health-perm}
use k_blackbox.Client.Connection.{connected}
use k_blackbox.Processor.Logged.{process_event}
use k_blackbox.Setup.{prepare_tui}
use k_blackbox.Setup.Prepared.{IsReady, prepare_tui-IsReady}
use k_blackbox.Tui.Keys.{char}
use k_blackbox.Tui.App.{TuiApp, get_selected_symbol}
use k_blackbox.Tui.App
use k_blackbox.Tui.Export.{Paths, Exported, handle_export_incident}
use k_blackbox.Tui.Console.{Console, Turn, run_tui_with_manager}
use k_blackbox.Tui.Console.Quits.{Ran, run_tui_with_manager-Ran}
use k_blackbox.Tasks.Sound.{IsSound}
use k_blackbox.Tasks.Steps.{Env, Options, initial, starts, later, event}
use k_blackbox.Tasks.Reachable.{Reach-IsSound}
use k_blackbox.Tests.Values.{Fixed, fixed, fixed_decimal, thousandths, parser}
use k_blackbox.Tests.Session.{log_clock, encoder, tools, session, manager}

abbrev paths : Paths
paths = record {
  zip = λ id. "./incidents/incident_0_checksum.zip";
  frames = λ id. "./incidents/incident_0_checksum_frames.ndjson";
  replay = λ path. path;
}

abbrev incident : IncidentMeta
incident = new_meta 5 "incident_0_checksum" "BTC/USD" "ChecksumMismatch"

abbrev broken_session : AppState Fixed ℕ
broken_session = record session {
  last_incident = some incident;
  per_symbol_frames = ("BTC/USD", "one" ∷ "two" ∷ []) ∷ [];
}

-- The export of the last incident, and the state after a frame that came later.
abbrev after_export : Exported ℕ ℕ × AppState Fixed ℕ
after_export = handle_export_incident thousandths encoder paths 7 8 none broken_session

abbrev later_session : AppState Fixed ℕ
later_session = record after_export.1 { per_symbol_frames = ("BTC/USD", "three" ∷ []) ∷ [] }

abbrev pub turn : Option ℕ → Turn Fixed ℕ
turn key = record {
  meanwhile = λ s. s;
  between = λ s. s;
  awaiting = λ s. s;
  pressed = elim key [ some c ↦ some (char c) | none ↦ none ];
  first_looked = 0;
  looked = 1;
  expiry = 2;
  now = 3;
  logged = 4;
  path = "recording.ndjson";
  created = true;
  message = "";
  io = some (codes "No space left on device");
}

-- Nothing, an export that fails, the quitting key, and one that comes too late.
abbrev turns : List (Turn Fixed ℕ)
turns = turn none ∷ turn (some b'e') ∷ turn (some b'q') ∷ turn (some b'r') ∷ []

abbrev console : Console Fixed ℕ
console = record { app = App.new (some "first.ndjson"); state = broken_session }

run_tui_with_manager-Ran_example :
    Ran thousandths encoder paths true "LIVE" "OFF" console.app.recording_path turns
      (run_tui_with_manager thousandths encoder paths true "LIVE" "OFF" turns console)
run_tui_with_manager-Ran_example =
    run_tui_with_manager-Ran thousandths encoder paths true "LIVE" "OFF" turns console (omega arith)

abbrev pairs : List String
pairs = "BTC/USD" ∷ "ETH/USD" ∷ []

abbrev pub to_f64 : Fixed → ℕ
to_f64 x = 10 * x.plus

prepare_tui-IsReady_example :
    All
      (IsReady {D = Fixed} 25 (prepare_tui thousandths 1 2 25 pairs true (some "rec.ndjson")))
      pairs
prepare_tui-IsReady_example =
    prepare_tui-IsReady Fixed thousandths 1 2 25 pairs true (some "rec.ndjson")

abbrev pub two_healths : SymbolHealth ℕ → SymbolHealth ℕ → AppState Fixed ℕ
two_healths h k = record session { health = (h.symbol, h) ∷ (k.symbol, k) ∷ [] }

abbrev pub bitcoin_health : SymbolHealth ℕ
bitcoin_health = Health.new thousandths "BTC/USD"

abbrev pub ether_health : SymbolHealth ℕ
ether_health = record (Health.new thousandths "ETH/USD") { connected = true }

swapped :
    Perm
      (values (two_healths bitcoin_health ether_health).health)
      (values (two_healths ether_health bitcoin_health).health)
unfolding values
swapped = Reordering.swap ether_health bitcoin_health []

overall_health-perm_example :
    (overall_health thousandths 9 (two_healths bitcoin_health ether_health)).status
    ≡ (overall_health thousandths 9 (two_healths ether_health bitcoin_health)).status
overall_health-perm_example =
    overall_health-perm thousandths 9 (two_healths bitcoin_health ether_health)
      (two_healths ether_health bitcoin_health) swapped

abbrev pub env : Env Fixed ℕ ℕ
env = record {
  tools = tools;
  wire = record {
    parser = parser;
    number_text = λ n. [];
    of_u32 = λ n. n;
    messages = record {
      from_str = λ s. none;
      to_ack = λ v. none;
      to_book = λ v. none;
      to_instrument = λ v. none;
      to_status = λ v. none;
      to_heartbeat = λ v. none;
      to_ping = λ v. none;
    };
  };
  encoder = encoder;
  paths = paths;
  products = record {
    mul = λ a b. fixed (a.plus * b.plus);
    from_difference = λ a b. record { plus = 100 * a; minus = 100 * b };
  };
  ten = 10000;
}

abbrev options : Options
options = record {
  now = 1;
  logged = 2;
  depth = 25;
  symbols = pairs;
  created = true;
  path = some "rec.ndjson";
}

Reach-IsSound_example :
    IsSound (process_event tools log_clock connected (initial env options manager)).state
Reach-IsSound_example =
    Reach-IsSound env options (later (starts manager) (event log_clock connected))
