-- ===== src/Tui/Screen.antt =====
-- crates/blackbox-server/src/tui/ui.rs: what `render_ui`, `render_header` and `render_incident_panel`
-- choose to show. Layout, colours of the frame and fixed texts are left out.
use k_blackbox.Base.{
  ℕ, [], length, Bool, true, false, Option, none, some, String, codes, ltb, if◌then◌else◌,
}
use k_blackbox.Decimal.{Text}
use k_blackbox.Words.{Time, seconds_since}
use k_blackbox.Tui.App.{
  TuiApp, TuiTab, integrity, market, analytics, replay, Notice, exported, export_failed,
}
use k_blackbox.Tui.Snapshot.{LastIncidentInfo, UiSnapshot, map_option}
use k_blackbox.Tui.Console.{last_part}

pub record Header (F : Type 0) : Type 0 where
  pub mode : String
  pub connected : Bool
  pub symbols : ℕ
  pub msg_rate : F
  -- "OFF", or "ON" with the name of the file.
  pub recording : Option Text
  pub fault_status : String

unfoldable pub header : {D F : Type 0} → UiSnapshot D F → Header F
unfolding last_part
header snapshot = record {
  mode = snapshot.mode;
  connected = snapshot.connected;
  symbols = length snapshot.symbols;
  msg_rate = snapshot.msg_rate;
  recording = map_option (λ path. last_part [] (codes path)) snapshot.recording_path;
  fault_status = snapshot.fault_status;
}

abbrev pub or_not_available : Option String → String
or_not_available none = "N/A"
or_not_available (some symbol) = symbol

-- The id, the symbol, the reason and the time of the last incident.
abbrev pub incident_lines : LastIncidentInfo → String × String × String × Time
incident_lines i = (i.id, or_not_available i.symbol, i.reason, i.timestamp)

unfoldable pub incident_panel :
    {D F : Type 0} → UiSnapshot D F → Option (String × String × String × Time)
incident_panel snapshot = map_option incident_lines snapshot.last_incident

-- The text begins with "✓".
abbrev pub is_success : Notice → Bool
is_success (exported path) = true
is_success (export_failed message) = false

abbrev pub visible : Time → Notice × Time → Option (Notice × Bool)
visible now (notice, set_at) =
    if ltb (seconds_since now set_at) 3 then some (notice, is_success notice) else none

abbrev pub notice_shown : Time → Option (Notice × Time) → Option (Notice × Bool)
notice_shown now none = none
notice_shown now (some n) = visible now n

-- The tab that is drawn, or the one whose name the placeholder shows; the help over it, and the notice
-- over that.
pub record Screen : Type 0 where
  pub is_drawn : Bool
  pub tab : TuiTab
  pub help : Bool
  pub notice : Option (Notice × Bool)

abbrev pub is_integrity : TuiTab → Bool
is_integrity integrity = true
is_integrity market = false
is_integrity analytics = false
is_integrity replay = false

unfoldable pub screen : Time → TuiApp → Screen
screen now app = record {
  is_drawn = is_integrity app.current_tab;
  tab = app.current_tab;
  help = app.show_help;
  notice = notice_shown now app.export_notification;
}
