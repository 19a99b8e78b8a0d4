-- ===== src/Tui/App.antt =====
-- crates/blackbox-server/src/tui/app.rs: the tab, the selection and the flags.
use k_blackbox.Base.{
  ℕ, zero, suc, ◌+◌, ◌-◌, ◌%◌, ◌<◌, ◌≡◌, refl, List, [], ◌∷◌, length, get_elem?, Bool, true, false,
  not, Option, none, some, String, ltb, if◌then◌else◌, arith,
}
use k_blackbox.Decimal.{Text}
use k_blackbox.Words.{Time}
use k_blackbox.Tui.Keys
use k_blackbox.Tui.Keys.{
  TuiAction, quit, toggle_recording, export_incident, inject_fault, replay_last_incident,
  acknowledge_alert, switch_tab_market, switch_tab_analytics, switch_tab_integrity,
  switch_tab_replay, toggle_help,
}

pub data TuiTab : Type 0 where
  market analytics integrity replay : TuiTab

-- The texts "✓ Exported: {}" and "✗ Export failed: {}".
pub data Notice : Type 0 where
  exported export_failed : Text → Notice

pub record TuiApp : Type 0 where
  pub current_tab : TuiTab
  pub recording_path : Option String
  pub fault_injection_enabled : Bool
  pub alerts_acknowledged : Bool
  pub selected_symbol_index : ℕ
  pub show_help : Bool
  -- The message and the time at which it was set.
  pub export_notification : Option (Notice × Time)

unfoldable pub new : Option String → TuiApp
new path = record {
  current_tab = integrity;
  recording_path = path;
  fault_injection_enabled = false;
  alerts_acknowledged = false;
  selected_symbol_index = 0;
  show_help = false;
  export_notification = none;
}

-- `symbols` are the snapshot's. Out of bounds, the source would panic.
unfoldable pub get_selected_symbol : List String → TuiApp → Option String
get_selected_symbol [] app = none
get_selected_symbol (s ∷ ss) app = get_elem? (s ∷ ss) (app.selected_symbol_index % length (s ∷ ss))

unfoldable pub move_selection_up : List String → TuiApp → TuiApp
move_selection_up [] app = app
move_selection_up (s ∷ ss) app =
    if ltb 0 app.selected_symbol_index
    then record app { selected_symbol_index = app.selected_symbol_index - 1 }
    else app

unfoldable pub move_selection_down : List String → TuiApp → TuiApp
move_selection_down [] app = app
move_selection_down (s ∷ ss) app = record app {
  selected_symbol_index = (app.selected_symbol_index + 1) % length (s ∷ ss);
}

-- The app after the action, and whether to quit.
unfoldable pub handle_action : TuiAction → TuiApp → Bool × TuiApp
handle_action quit app = (true, app)
handle_action acknowledge_alert app = (false, record app { alerts_acknowledged = true })
handle_action switch_tab_integrity app = (false, record app { current_tab = integrity })
handle_action toggle_help app = (false, record app { show_help = not app.show_help })
handle_action toggle_recording app = (false, app)
handle_action export_incident app = (false, app)
handle_action inject_fault app = (false, app)
handle_action replay_last_incident app = (false, app)
handle_action Keys.move_selection_up app = (false, app)
handle_action Keys.move_selection_down app = (false, app)
handle_action switch_tab_market app = (false, app)
handle_action switch_tab_analytics app = (false, app)
handle_action switch_tab_replay app = (false, app)

-- The index that `get_selected_symbol` reads is in bounds.
get_elem?-bounds :
    (xs : List String) (i : ℕ) → i < length xs → (x : String) × (get_elem? xs i ≡ some x)
get_elem?-bounds [] i h = absurd (omega arith)
get_elem?-bounds (x ∷ xs) zero h = (x, refl)
get_elem?-bounds (x ∷ xs) (suc i) h = get_elem?-bounds xs i (omega arith)

-- After a move down over at least one symbol, the selection is an index into the symbols, and a
-- symbol is selected; a move up leaves the index an index and moves it by one, unless it is the first.
pub selection_lem :
    (s : String) (ss : List String) (app : TuiApp)
    → let symbols = s ∷ ss in
      let moved = move_selection_down symbols app in
      (moved.selected_symbol_index < length symbols)
      × ((x : String) × (get_selected_symbol symbols moved ≡ some x))
      × ((move_selection_up symbols moved).selected_symbol_index ≡ moved.selected_symbol_index - 1)
unfolding move_selection_down move_selection_up get_selected_symbol
selection_lem s ss app = (
  omega arith,
  get_elem?-bounds (s ∷ ss) ((app.selected_symbol_index + 1) % suc (length ss) % suc (length ss))
      (omega arith),
  ground arith,
)
