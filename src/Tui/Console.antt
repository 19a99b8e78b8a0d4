-- ===== src/Tui/Console.antt =====
-- crates/blackbox-server/src/tui/ui.rs: `run_tui_with_manager`, the loop of the terminal interface. What
-- it draws is left out; a turn does all else: it looks at the state, forgets an old notice and handles a
-- key.
pub mod Turns
pub mod Quits
use k_blackbox.Base.{
  ℕ, ◌+◌, ◌-◌, ◌≤◌, ◌<◌, List, [], ◌∷◌, ◌++◌, Bool, true, false, not, Option, none, some, String,
  codes, ltb, leb, ◌==◌, if◌then◌else◌,
}
use k_blackbox.Decimal.{Text}
use k_blackbox.Utf8.{byte_len, slice_to}
use k_blackbox.Words.{Time, Float, seconds_since}
use k_blackbox.Export.{Encoder}
use k_blackbox.State.{AppState}
use k_blackbox.Tui.Keys.{KeyCode, TuiAction, key_to_action}
use k_blackbox.Tui.Keys
use k_blackbox.Tui.App.{TuiApp, Notice, exported, export_failed, get_selected_symbol, handle_action}
use k_blackbox.Tui.App
use k_blackbox.Tui.Snapshot.{UiSnapshot, from_state}
use k_blackbox.Tui.Export.{Exported, ok, err, Paths, handle_export_incident, handle_replay_incident}
use k_blackbox.Tui.Actions.{handle_toggle_recording, handle_fault_injection}

-- `path.split('/').last()`.
unfoldable pub last_part : Text → Text → Text
last_part part [] = part
last_part part (c ∷ cs) = if c == b'/' then last_part [] cs else last_part (part ++ c ∷ []) cs

abbrev pub dots : Option Text → Option Text
dots none = none
dots (some t) = some (t ++ codes "...")

unfoldable pub short_error : Text → Option Text
unfolding byte_len slice_to
short_error message = if ltb 40 (byte_len message) then dots (slice_to 40 message) else some message

pub record Console (D F : Type 0) : Type 0 where
  pub app : TuiApp
  pub state : AppState D F

-- What the environment does in a turn: what the other tasks make of the state before the turn, between
-- the two snapshots and while a key is awaited, the key that was pressed, the readings of the clock, and
-- how the files fare.
pub record Turn (D F : Type 0) : Type 0 where
  pub meanwhile : AppState D F → AppState D F
  pub between : AppState D F → AppState D F
  pub awaiting : AppState D F → AppState D F
  pub pressed : Option KeyCode
  pub first_looked : Time
  pub looked : Time
  pub expiry : Time
  pub now : Time
  pub logged : Time
  pub path : String
  pub created : Bool
  pub message : String
  pub io : Option Text

-- A turn goes on, ends the loop, or panics.
pub data Flow (D F : Type 0) : Type 0 where
  on : Console D F → Flow D F
  quits : Console D F → Flow D F
  panics : Flow D F

-- A notice that is three seconds old is forgotten.
abbrev pub clear_if_old : Time → Option (Notice × Time) → TuiApp → TuiApp
clear_if_old now none app = app
clear_if_old now (some (notice, set_at)) app =
    if leb 3 (seconds_since now set_at) then record app { export_notification = none } else app

unfoldable pub clear_expired : Time → TuiApp → TuiApp
clear_expired now app = clear_if_old now app.export_notification app

module _ {D F : Type 0} where
  abbrev pub notify : Time → Notice → Console D F → Flow D F
  notify now notice c =
      on (record c { app = record c.app { export_notification = some (notice, now) } })

  abbrev pub failed_notice : Time → Option Text → Console D F → Flow D F
  failed_notice now none c = panics
  failed_notice now (some t) c = notify now (export_failed t) c

module _ {D F N : Type 0} where
  -- The notice of an export, whose state is in `c`.
  abbrev pub export_notice : Time → Exported F N → Console D F → Flow D F
  export_notice now (ok path bundle) c = notify now (exported (last_part [] (codes path))) c
  export_notice now (err e) c = failed_notice now (short_error e) c

  abbrev pub export_key : Float F → Encoder F N → Paths → Bool → Turn D F → Console D F → Flow D F
  export_key f enc paths true t c =
      let (result, s) = handle_export_incident f enc paths t.now t.logged t.io c.state in
      export_notice t.now result (record c { state = s })
  export_key f enc paths false t c = on c

module _ {D F : Type 0} where
  abbrev pub inject_key : Time → Option String → Console D F → Flow D F
  inject_key now none c = on c
  inject_key now (some symbol) c =
      on (record c { state = handle_fault_injection now symbol c.state })

  -- An action that the app handles by itself.
  abbrev pub app_key : TuiAction → Console D F → Flow D F
  app_key action c =
      let (quit, app) = handle_action action c.app in
      if quit then quits (record c { app = app }) else on (record c { app = app })

module _ {D F N : Type 0} (f : Float F) (enc : Encoder F N) (paths : Paths)
    -- Is there an incident manager?
    (managed : Bool) where
  -- `symbols` are those of the snapshot.
  unfoldable pub on_action : TuiAction → List String → Turn D F → Console D F → Flow D F
  unfolding handle_action
  on_action Keys.export_incident symbols t c = export_key f enc paths managed t c
  on_action Keys.toggle_recording symbols t c =
      on (record c { state = handle_toggle_recording t.now t.path t.created t.message c.state })
  on_action Keys.inject_fault symbols t c = inject_key t.now (get_selected_symbol symbols c.app) c
  on_action Keys.replay_last_incident symbols t c =
      on (record c { state = (handle_replay_incident paths t.now c.state).1 })
  on_action Keys.move_selection_up symbols t c =
      on (record c { app = App.move_selection_up symbols c.app })
  on_action Keys.move_selection_down symbols t c =
      on (record c { app = App.move_selection_down symbols c.app })
  on_action Keys.toggle_help symbols t c =
      on (record c { app = record c.app { show_help = not c.app.show_help } })
  on_action Keys.quit symbols t c = app_key Keys.quit c
  on_action Keys.acknowledge_alert symbols t c = app_key Keys.acknowledge_alert c
  on_action Keys.switch_tab_market symbols t c = app_key Keys.switch_tab_market c
  on_action Keys.switch_tab_analytics symbols t c = app_key Keys.switch_tab_analytics c
  on_action Keys.switch_tab_integrity symbols t c = app_key Keys.switch_tab_integrity c
  on_action Keys.switch_tab_replay symbols t c = app_key Keys.switch_tab_replay c

  abbrev pub on_key : Option TuiAction → List String → Turn D F → Console D F → Flow D F
  on_key none symbols t c = on c
  on_key (some action) symbols t c = on_action action symbols t c

  abbrev pub on_press : Option KeyCode → List String → Turn D F → Console D F → Flow D F
  on_press none symbols t c = on c
  on_press (some key) symbols t c = on_key (key_to_action key) symbols t c

abbrev pub requested_of : List String → Option (List String)
requested_of [] = none
requested_of (s ∷ ss) = some (s ∷ ss)

module _ {D F : Type 0} (f : Float F) (mode fault_status : String) where
  -- The snapshot that is drawn. It is taken twice: the first one gives the selected symbol.
  unfoldable pub look : Turn D F → Console D F → UiSnapshot D F
  look t c =
      let requested = requested_of c.state.requested_symbols in
      let first =
        from_state f t.first_looked c.state mode c.app.recording_path fault_status none requested in
      from_state f t.looked (t.between c.state) mode c.app.recording_path fault_status
        (get_selected_symbol first.symbols c.app) requested

module _ {D F N : Type 0} (f : Float F) (enc : Encoder F N) (paths : Paths) (managed : Bool)
    (mode fault_status : String) where
  -- The snapshot, and the turn after it.
  unfoldable pub turn : Turn D F → Console D F → UiSnapshot D F × Flow D F
  unfolding clear_expired on_action
  turn t c =
      let seen = record c { state = t.meanwhile c.state } in
      let snapshot = look f mode fault_status t seen in
      (
        snapshot,
        on_press f enc paths managed t.pressed snapshot.symbols t (record {
          app = clear_expired t.expiry seen.app;
          state = t.awaiting (t.between seen.state);
        }),
      )

  -- The other turns, unless the loop is over.
  abbrev pub go_on :
      (Console D F → List (UiSnapshot D F) × Flow D F) → Flow D F → List (UiSnapshot D F) × Flow D F
  go_on again (on c) = again c
  go_on again (quits c) = ([], quits c)
  go_on again panics = ([], panics)

  -- What was drawn, and how the loop stands after the turns.
  unfoldable pub run_tui_with_manager :
      List (Turn D F) → Console D F → List (UiSnapshot D F) × Flow D F
  unfolding turn
  run_tui_with_manager [] c = ([], on c)
  run_tui_with_manager (t ∷ ts) c =
      let (snapshot, flow) = turn t c in
      let (drawn, end) = go_on (run_tui_with_manager ts) flow in (snapshot ∷ drawn, end)
