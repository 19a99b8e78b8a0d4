-- ===== src/Tui/Console/Quits.antt =====
-- crates/blackbox-server/src/tui/ui.rs: how many turns the loop of the terminal interface takes,
-- and how it ends.
use k_blackbox.Base.{
  ℕ, suc, ◌≡◌, refl, ap, subst, List, [], ◌∷◌, length, All, Bool, false, ◌||◌, Option, none, some,
  String, if◌then◌else◌, arith,
}
use k_blackbox.Words.{Time, Float}
use k_blackbox.Export.{Encoder}
use k_blackbox.Tui.Keys.{KeyCode, TuiAction, key_to_action}
use k_blackbox.Tui.App.{TuiApp, Notice}
use k_blackbox.Tui.Snapshot.{UiSnapshot, from_state}
use k_blackbox.Tui.Export.{Paths}
use k_blackbox.Tui.Console.{
  Console, Turn, Flow, on, quits, panics, clear_if_old, clear_expired, on_key, on_press, look, turn,
  go_on, run_tui_with_manager,
}
use k_blackbox.Tui.Console.Turns.{AsciiError, quits_by, quit_pressed, Goes, on_action-Goes}

clear_if_old-path :
    (now : Time) (n : Option (Notice × Time)) (app : TuiApp)
    → (clear_if_old now n app).recording_path ≡ app.recording_path
clear_if_old-path now none app = refl
clear_if_old-path now (some (notice, set_at)) app = ground arith

abbrev pub any_quit : {D F : Type 0} → List (Turn D F) → Bool
any_quit [] = false
any_quit (t ∷ ts) = quit_pressed t.pressed || any_quit ts

-- The turns up to the first one that quits, which counts.
abbrev pub turns_until_quit : {D F : Type 0} → List (Turn D F) → ℕ
turns_until_quit [] = 0
turns_until_quit (t ∷ ts) = if quit_pressed t.pressed then 1 else suc (turns_until_quit ts)

module _ {D F N : Type 0} (f : Float F) (enc : Encoder F N) (paths : Paths) (managed : Bool)
    (mode fault_status : String) where
  on_press-Goes :
      (key : Option KeyCode) (symbols : List String) (t : Turn D F) (c : Console D F)
      → AsciiError t.io
      → Goes c.app.recording_path (quit_pressed key) (on_press f enc paths managed key symbols t c)
  on_press-Goes none symbols t c a = (refl, refl)
  on_press-Goes (some key) symbols t c a = by_action (key_to_action key)
    where
      by_action :
          (o : Option TuiAction)
          → Goes c.app.recording_path (quits_by o) (on_key f enc paths managed o symbols t c)
      by_action none = (refl, refl)
      by_action (some action) = on_action-Goes f enc paths managed action symbols t c a

  turn-Goes :
      (t : Turn D F) (c : Console D F)
      → AsciiError t.io
      → let (snapshot, flow) = turn f enc paths managed mode fault_status t c in
        Goes c.app.recording_path (quit_pressed t.pressed) flow
        × (snapshot.recording_path ≡ c.app.recording_path)
  unfolding turn look from_state clear_expired
  turn-Goes t c a =
      let seen : Console D F = record c { state = t.meanwhile c.state } in
      let snapshot = look f mode fault_status t seen in
      let cleared : Console D F = record {
        app = clear_expired t.expiry c.app;
        state = t.awaiting (t.between seen.state);
      } in
      (
        subst
            (λ p.
              Goes p (quit_pressed t.pressed)
                (on_press f enc paths managed t.pressed snapshot.symbols t cleared))
            (clear_if_old-path t.expiry c.app.export_notification c.app)
            (on_press-Goes t.pressed snapshot.symbols t cleared a),
        refl,
      )

  -- The outcome of a run, with all that was drawn.
  abbrev pub Ran : Option String → List (Turn D F) → List (UiSnapshot D F) × Flow D F → Type 0
  Ran path ts r =
      (length r.0 ≡ turns_until_quit ts)
      × Goes path (any_quit ts) r.1
      × All (λ snapshot. snapshot.recording_path ≡ path) r.0

  go_on-Ran :
      (t : Turn D F) (ts : List (Turn D F)) (path : Option String) (snapshot : UiSnapshot D F)
      (flow : Flow D F)
      → Goes path (quit_pressed t.pressed) flow
      → snapshot.recording_path ≡ path
      → ((c : Console D F)
          → c.app.recording_path ≡ path
          → Ran path ts (run_tui_with_manager f enc paths managed mode fault_status ts c))
      → let later =
          go_on f enc paths managed mode fault_status
            (run_tui_with_manager f enc paths managed mode fault_status ts)
            flow in
        Ran path (t ∷ ts) (snapshot ∷ later.0, later.1)
  go_on-Ran t ts path snapshot (on c) g e ih =
      let rest = ih c g.1 in rw g.0 (ap suc rest.0, rest.1, (e, rest.2))
  go_on-Ran t ts path snapshot (quits c) g e ih = rw g.0 (refl, (refl, g.1), (e, tt))
  go_on-Ran t ts path snapshot panics g e ih = absurd g

  -- If the errors of the file operations are in ASCII, the loop draws once for each turn up to the
  -- first key that quits, and stops there exactly if there is such a key; it never panics. Each time it
  -- shows the recording path that the app began with, whatever the keys and the other tasks do.
  pub run_tui_with_manager-Ran :
      (ts : List (Turn D F)) (c : Console D F)
      → All (λ t. AsciiError t.io) ts
      → Ran c.app.recording_path ts
          (run_tui_with_manager f enc paths managed mode fault_status ts c)
  unfolding run_tui_with_manager
  run_tui_with_manager-Ran [] c a = (refl, (refl, refl), tt)
  run_tui_with_manager-Ran (t ∷ ts) c a =
      let (g, e) = turn-Goes t c a.0 in
      let (snapshot, flow) = turn f enc paths managed mode fault_status t c in
      go_on-Ran t ts c.app.recording_path snapshot flow g e (λ c' p.
        subst
          (λ path. Ran path ts (run_tui_with_manager f enc paths managed mode fault_status ts c')) p
          (run_tui_with_manager-Ran ts c' a.1))
