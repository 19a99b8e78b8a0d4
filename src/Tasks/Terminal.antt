-- ===== src/Tasks/Terminal.antt =====
-- crates/blackbox-server/src/tui/ui.rs: the keys of the terminal interface keep the shared state sound.
use k_blackbox.Base.{refl, List, Bool, true, false, Option, none, some, String, holds_if}
use k_blackbox.Decimal.{Decimal, Text}
use k_blackbox.Words.{Time, Float}
use k_blackbox.Recorder
use k_blackbox.Integrity.Proof.{IncidentMeta}
use k_blackbox.Integrity.Injector.{trigger}
use k_blackbox.Export.{Encoder}
use k_blackbox.State.{
  AppState, set_recording_path, set_recording_enabled, record_stopped, record_started, error,
  fault_injected, incident_exported, set_last_incident,
}
use k_blackbox.Tui.Keys.{KeyCode, TuiAction, key_to_action}
use k_blackbox.Tui.Keys
use k_blackbox.Tui.App.{get_selected_symbol, handle_action}
use k_blackbox.Tui.Actions.{handle_toggle_recording, handle_fault_injection}
use k_blackbox.Tui.Export.{
  Exported, ok, err, Paths, export_last, handle_export_incident, replay_path, frames_path_of,
  handle_replay_incident, replay_incident_frames,
}
use k_blackbox.Tui.Console.{
  Console, Turn, Flow, on, quits, panics, short_error, failed_notice, export_notice, export_key,
  inject_key, app_key, on_action, on_key, on_press,
}
use k_blackbox.Tasks.Sound.{IsSound, push_event-IsSound, buffer-IsSound}

module _ {D F : Type 0} ⦃d : Decimal D⦄ where
  toggle-IsSound :
      (now : Time) (path : String) (created : Bool) (message : String) (s : AppState D F)
      → IsSound s
      → IsSound (handle_toggle_recording now path created message s)
  unfolding handle_toggle_recording Recorder.new set_recording_enabled set_recording_path
  toggle-IsSound now path created message s v =
      holds_if IsSound s.recording_enabled _ _
        (push_event-IsSound now record_stopped
          (set_recording_path none (set_recording_enabled false (record s { recorder = none })))
          (v.0, v.1, v.2, v.3, v.4, refl))
        (holds_if IsSound created _ _
          (push_event-IsSound now (record_started path)
            (set_recording_path (some path)
              (set_recording_enabled true (record s { recorder = some (Recorder.new path) })))
            (v.0, v.1, v.2, v.3, v.4, (refl, refl)))
          (push_event-IsSound now (error message) s v))

  fault_injection-IsSound :
      (now : Time) (symbol : String) (s : AppState D F)
      → IsSound s
      → IsSound (handle_fault_injection now symbol s)
  unfolding handle_fault_injection
  fault_injection-IsSound now symbol s v =
      push_event-IsSound now (fault_injected "MutateQty" symbol)
        (record s { fault_injector = trigger symbol s.fault_injector }) v

  replay_path-IsSound :
      (paths : Paths) (now : Time) (path : Option String) (s : AppState D F)
      → IsSound s
      → IsSound (replay_path paths now path s).1
  replay_path-IsSound paths now none s v = v
  replay_path-IsSound paths now (some path) s v =
      push_event-IsSound now (record_started (paths.replay path)) s v

  pub replay_incident_frames-IsSound :
      (now : Time) (content : Option (List String)) (s : AppState D F)
      → IsSound s
      → IsSound (replay_incident_frames now content s)
  unfolding replay_incident_frames
  replay_incident_frames-IsSound now none s v = v
  replay_incident_frames-IsSound now (some content) s v = push_event-IsSound now record_stopped s v

  -- What the loop goes on with is sound.
  abbrev pub FlowIsSound : Flow D F → Type 0
  FlowIsSound (on c) = IsSound c.state
  FlowIsSound (quits c) = IsSound c.state
  FlowIsSound panics = Unit

  failed_notice-IsSound :
      (now : Time) (o : Option Text) (c : Console D F)
      → IsSound c.state
      → FlowIsSound (failed_notice now o c)
  failed_notice-IsSound now none c v = tt
  failed_notice-IsSound now (some t) c v = v

  inject_key-IsSound :
      (now : Time) (o : Option String) (c : Console D F)
      → IsSound c.state
      → FlowIsSound (inject_key now o c)
  inject_key-IsSound now none c v = v
  inject_key-IsSound now (some symbol) c v = fault_injection-IsSound now symbol c.state v

  app_key-IsSound :
      (action : TuiAction) (c : Console D F) → IsSound c.state → FlowIsSound (app_key action c)
  app_key-IsSound action c v = holds_if FlowIsSound (handle_action action c.app).0 _ _ v v

module _ {D F N : Type 0} ⦃d : Decimal D⦄ (f : Float F) (enc : Encoder F N) (paths : Paths) where
  export_last-IsSound :
      (now logged : Time) (io : Option Text) (last : Option IncidentMeta) (s : AppState D F)
      → IsSound s
      → IsSound (export_last f enc paths now logged io last s).1
  unfolding set_last_incident
  export_last-IsSound now logged io none s v = v
  export_last-IsSound now logged none (some inc) s v =
      push_event-IsSound logged (incident_exported (paths.zip inc.id)) _
        (buffer-IsSound inc.symbol s v).1
  export_last-IsSound now logged (some e) (some inc) s v = (buffer-IsSound inc.symbol s v).1

  export_notice-IsSound :
      (now : Time) (result : Exported F N) (c : Console D F)
      → IsSound c.state
      → FlowIsSound (export_notice now result c)
  export_notice-IsSound now (ok path bundle) c v = v
  export_notice-IsSound now (err e) c v = failed_notice-IsSound now (short_error e) c v

  export_key-IsSound :
      (managed : Bool) (t : Turn D F) (c : Console D F)
      → IsSound c.state
      → FlowIsSound (export_key f enc paths managed t c)
  unfolding handle_export_incident
  export_key-IsSound false t c v = v
  export_key-IsSound true t c v =
      let (result, s) = handle_export_incident f enc paths t.now t.logged t.io c.state in
      export_notice-IsSound t.now result (record c { state = s })
        (export_last-IsSound t.now t.logged t.io c.state.last_incident c.state v)

  on_action-IsSound :
      (managed : Bool) (action : TuiAction) (symbols : List String) (t : Turn D F) (c : Console D F)
      → IsSound c.state
      → FlowIsSound (on_action f enc paths managed action symbols t c)
  unfolding on_action handle_replay_incident
  on_action-IsSound managed Keys.export_incident symbols t c v = export_key-IsSound managed t c v
  on_action-IsSound managed Keys.toggle_recording symbols t c v =
      toggle-IsSound t.now t.path t.created t.message c.state v
  on_action-IsSound managed Keys.inject_fault symbols t c v =
      inject_key-IsSound t.now (get_selected_symbol symbols c.app) c v
  on_action-IsSound managed Keys.replay_last_incident symbols t c v =
      replay_path-IsSound paths t.now (frames_path_of c.state.last_incident) c.state v
  on_action-IsSound managed Keys.quit symbols t c v = app_key-IsSound Keys.quit c v
  on_action-IsSound managed action symbols t c v = v

  -- A key keeps the shared state sound.
  pub on_press-IsSound :
      (managed : Bool) (key : Option KeyCode) (symbols : List String) (t : Turn D F)
      (c : Console D F)
      → IsSound c.state
      → FlowIsSound (on_press f enc paths managed key symbols t c)
  on_press-IsSound managed none symbols t c v = v
  on_press-IsSound managed (some key) symbols t c v = by_action (key_to_action key)
    where
      by_action : (o : Option TuiAction) → FlowIsSound (on_key f enc paths managed o symbols t c)
      by_action none = v
      by_action (some action) = on_action-IsSound managed action symbols t c v
