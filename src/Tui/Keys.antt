-- ===== src/Tui/Keys.antt =====
-- crates/blackbox-server/src/tui/keys.rs: what the keys do.
use k_blackbox.Base.{ℕ, Option, none, some, ◌==◌, if◌then◌else◌}

pub data TuiAction : Type 0 where
  quit toggle_recording export_incident inject_fault replay_last_incident acknowledge_alert :
      TuiAction
  move_selection_up move_selection_down switch_tab_market switch_tab_analytics : TuiAction
  switch_tab_integrity switch_tab_replay toggle_help : TuiAction

-- crossterm's `KeyCode`, as far as the keys are bound.
pub data KeyCode : Type 0 where
  char : ℕ → KeyCode
  esc up down other_key : KeyCode

abbrev pub char_action : ℕ → Option TuiAction
char_action c =
    if c == b'q'
    then some quit
    else if c == b'r'
    then some toggle_recording
    else if c == b'R'
    then some toggle_recording
    else if c == b'e'
    then some export_incident
    else if c == b'E'
    then some export_incident
    else if c == b'd'
    then some inject_fault
    else if c == b'D'
    then some inject_fault
    else if c == b'p'
    then some replay_last_incident
    else if c == b'P'
    then some replay_last_incident
    else if c == b'a'
    then some acknowledge_alert
    else if c == b'A'
    then some acknowledge_alert
    else if c == b'1'
    then some switch_tab_market
    else if c == b'2'
    then some switch_tab_analytics
    else if c == b'3'
    then some switch_tab_integrity
    else if c == b'4'
    then some switch_tab_replay
    else if c == b'?'
    then some toggle_help
    else if c == b'h'
    then some toggle_help
    else if c == b'H'
    then some toggle_help
    else none

unfoldable pub key_to_action : KeyCode → Option TuiAction
key_to_action (char c) = char_action c
key_to_action esc = some quit
key_to_action up = some move_selection_up
key_to_action down = some move_selection_down
key_to_action other_key = none
