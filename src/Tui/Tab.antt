-- ===== src/Tui/Tab.antt =====
-- crates/blackbox-server/src/tui/ui.rs: `render_ui` and `render_integrity_tab`, which put the header, the
-- widgets of the tab, the footer and what lies over them together.
pub mod Selected
use k_blackbox.Base.{ℕ, List, Bool, true, false, Option, none, some, String, if◌then◌else◌}
use k_blackbox.Decimal.{Decimal}
use k_blackbox.Words.{Time, Float}
use k_blackbox.DashMap.{Map, get_or}
use k_blackbox.State.{AppState}
use k_blackbox.State.Aggregate.{Arg}
use k_blackbox.Tui.App.{TuiApp, TuiTab, integrity, market, analytics, replay}
use k_blackbox.Tui.Snapshot.{UiSnapshot}
use k_blackbox.Tui.Screen.{Header, header, incident_panel, Screen, screen, is_integrity}
use k_blackbox.Tui.Widgets.{
  Color, cyan, dark_gray, Badge, integrity_badge, symbol_selector, Inspector, integrity_inspector,
  event_log,
}
use k_blackbox.Tui.Widgets.Book.{BookView, render_orderbook}

-- What the tab shows.
pub record Tab (D F : Type 0) : Type 0 where
  pub badge : Badge
  pub symbols : List (Bool × String)
  pub book : BookView D
  pub inspector : Option (Inspector D F)
  pub incident : Option (String × String × String × Time)
  pub events : List (Time × String × List Arg × Color)

abbrev pub depth_of : Option String → Map ℕ → ℕ
depth_of none depths = 10
depth_of (some symbol) depths = get_or 10 symbol depths

-- The colour of each tab's name.
pub record Footer : Type 0 where
  pub market : Color
  pub analytics : Color
  pub integrity : Color
  pub replay : Color

unfoldable pub footer : TuiTab → Footer
footer integrity = record {
  market = dark_gray;
  analytics = dark_gray;
  integrity = cyan;
  replay = dark_gray;
}
footer market = record {
  market = cyan;
  analytics = dark_gray;
  integrity = dark_gray;
  replay = dark_gray;
}
footer analytics = record {
  market = dark_gray;
  analytics = cyan;
  integrity = dark_gray;
  replay = dark_gray;
}
footer replay = record {
  market = dark_gray;
  analytics = dark_gray;
  integrity = dark_gray;
  replay = cyan;
}

-- `main` is the tab, or nothing where the placeholder stands.
pub record Frame (D F : Type 0) : Type 0 where
  pub header : Header F
  pub main : Option (Tab D F)
  pub footer : Footer
  pub overlays : Screen

-- What the widgets take besides: the threshold of the badge, the share of the latencies, the width of
-- a bar, and the float of a decimal.
pub record Scales (D F : Type 0) : Type 0 where
  pub threshold : F
  pub share : F
  pub width : F
  pub to_f64 : D → F

module _ {D F : Type 0} ⦃d : Decimal D⦄ (f : Float F) (c : Scales D F) where
  -- `height` is that of the area of the book. The books and the depths are those of the shared state
  -- when the tab is drawn.
  unfoldable pub integrity_tab : ℕ → UiSnapshot D F → TuiApp → AppState D F → Tab D F
  unfolding integrity_badge symbol_selector render_orderbook integrity_inspector incident_panel
      event_log
  integrity_tab height snapshot app s = record {
    badge = integrity_badge f c.threshold snapshot;
    symbols = symbol_selector snapshot.symbols app.selected_symbol_index;
    book =
        render_orderbook f c.to_f64 c.width (depth_of snapshot.selected_symbol s.depths) height
          snapshot.selected_symbol s;
    inspector = integrity_inspector f c.share snapshot.integrity_proof snapshot.selected_symbol;
    incident = incident_panel snapshot;
    events = event_log snapshot.events;
  }

  unfoldable pub render_ui : Time → ℕ → UiSnapshot D F → TuiApp → AppState D F → Frame D F
  unfolding integrity_tab header footer screen
  render_ui now height snapshot app s = record {
    header = header snapshot;
    main =
        if is_integrity app.current_tab then some (integrity_tab height snapshot app s) else none;
    footer = footer app.current_tab;
    overlays = screen now app;
  }
