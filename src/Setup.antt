-- ===== src/Setup.antt =====
-- crates/blackbox-server/src/main.rs: what `run_tui_mode` and `run_client` make of the options before
-- their tasks run.
pub mod Prepared
use k_blackbox.Base.{
  ℕ, List, [], ◌∷◌, Bool, true, false, Option, none, some, String, str_eq, ◌||◌, if◌then◌else◌,
}
use k_blackbox.Decimal.{Text}
use k_blackbox.Words.{Time, Float}
use k_blackbox.DashMap.{insert, contains_key}
use k_blackbox.Types.{FaultRule, ReplayMode}
use k_blackbox.Health
use k_blackbox.Recorder
use k_blackbox.Recorder.{Recorder}
use k_blackbox.Cli.{build_fault_rule_from_str, replay_mode, parse_duration}
use k_blackbox.State.{
  AppState, set_requested_symbols, set_depth, set_recording_enabled, set_recording_path, push_event,
  record_started,
}
use k_blackbox.State

-- The text of the header: "REPLAY", "MOCK" or "LIVE".
abbrev pub is_given : {A : Type 0} → Option A → Bool
is_given none = false
is_given (some a) = true

unfoldable pub mode_text : Option String → Bool → String
mode_text replay mock = if is_given replay then "REPLAY" else if mock then "MOCK" else "LIVE"

-- "OFF", or the fault and its index.
pub data FaultStatus : Type 0 where
  off : FaultStatus
  at : String → ℕ → FaultStatus

unfoldable pub fault_status : String → Option ℕ → FaultStatus
fault_status fault none = off
fault_status fault (some index) = if str_eq fault "none" then off else at fault index

-- The task that is started for the data; an interval that is no duration ends the program first.
pub data Task (F I : Type 0) : Type 0 where
  mock_data : Task F I
  replaying : String → ReplayMode F → FaultRule I → Task F I
  live : ℕ → Task F I
  bad_interval : Task F I

module _ {F I : Type 0} where
  abbrev pub live_task : Option ℕ → Task F I
  live_task none = bad_interval
  live_task (some seconds) = live seconds

  abbrev pub replay_task :
      (F → Bool) → (F → Bool) → I → F → String → Option ℕ → Text → Option String → Task F I
  replay_task is_one is_positive one_tick speed fault once_at interval none =
      live_task (parse_duration interval)
  replay_task is_one is_positive one_tick speed fault once_at interval (some path) =
      replaying path (replay_mode is_one is_positive speed)
        (build_fault_rule_from_str one_tick fault once_at)

  unfoldable pub task_of :
      (F → Bool) → (F → Bool) → I → F → String → Option ℕ → Text → Option String → Bool → Task F I
  unfolding build_fault_rule_from_str replay_mode parse_duration
  task_of is_one is_positive one_tick speed fault once_at interval replay mock =
      if mock
      then mock_data
      else replay_task is_one is_positive one_tick speed fault once_at interval replay

module _ {D F : Type 0} (f : Float F) where
  -- A depth and a health entry for each symbol.
  unfoldable pub prepare_symbols : ℕ → List String → AppState D F → AppState D F
  unfolding set_depth
  prepare_symbols depth [] s = s
  prepare_symbols depth (symbol ∷ symbols) s =
      let deep = set_depth symbol depth s in
      prepare_symbols depth symbols (
        if contains_key symbol deep.health
        then deep
        else record deep { health = insert symbol (Health.new f symbol) deep.health })

  -- The recorder of the command line; `created` says whether its file could be created.
  abbrev pub start_recorder : Time → Bool → Option String → AppState D F → AppState D F
  start_recorder now created none s = s
  start_recorder now created (some path) s =
      if created
      then push_event now (record_started path) (
          set_recording_path (some path)
            (set_recording_enabled true (record s { recorder = some (Recorder.new path) })))
      else s

  unfoldable pub prepare_tui : Time → Time → ℕ → List String → Bool → Option String → AppState D F
  unfolding prepare_symbols push_event State.new set_requested_symbols set_recording_path
      set_recording_enabled
  prepare_tui now logged depth symbols created path =
      start_recorder logged created path
        (prepare_symbols depth symbols (set_requested_symbols symbols (State.new now)))

module _ {D F : Type 0} where
  abbrev pub set_depths : ℕ → List String → AppState D F → AppState D F
  set_depths depth [] s = s
  set_depths depth (symbol ∷ symbols) s = set_depths depth symbols (set_depth symbol depth s)

  -- `run_client`: a depth for each symbol.
  unfoldable pub prepare_client : Time → ℕ → List String → AppState D F
  unfolding set_depth State.new
  prepare_client now depth symbols = set_depths depth symbols (State.new now)
