-- ===== src/Tui/Console/Turns.antt =====
-- How the loop of the terminal interface ends, and what all of its turns leave alone.
use k_blackbox.Base.{
  ◌≡◌, ◌≢◌, refl, List, [], ◌∷◌, Bool, true, false, Option, none, some, String, arith,
}
use k_blackbox.Decimal.{Text}
use k_blackbox.Utf8.{IsAscii, slice_to-ascii}
use k_blackbox.Words.{Time, Float}
use k_blackbox.Integrity.Proof.{IncidentMeta}
use k_blackbox.Export.{Encoder}
use k_blackbox.State.{AppState}
use k_blackbox.Tui.Keys.{KeyCode, TuiAction, key_to_action}
use k_blackbox.Tui.Keys
use k_blackbox.Tui.App.{TuiApp, Notice, get_selected_symbol, handle_action}
use k_blackbox.Tui.App
use k_blackbox.Tui.Export.{Exported, ok, err, Paths, export_last, handle_export_incident}
use k_blackbox.Tui.Console.{
  Console, Turn, Flow, on, quits, panics, short_error, failed_notice, export_notice, export_key,
  inject_key, on_action,
}

short_error-ascii : (t : Text) → IsAscii t → short_error t ≢ none
unfolding short_error
short_error-ascii t a = ground (arith, slice_to-ascii 40 t a)

-- A file operation fails, if it does, with a message in ASCII.
abbrev pub AsciiError : Option Text → Type 0
AsciiError none = Unit
AsciiError (some e) = IsAscii e

abbrev pub is_quit : TuiAction → Bool
is_quit Keys.quit = true
is_quit _ = false

abbrev pub quits_by : Option TuiAction → Bool
quits_by none = false
quits_by (some action) = is_quit action

abbrev pub quit_pressed : Option KeyCode → Bool
quit_pressed none = false
quit_pressed (some key) = quits_by (key_to_action key)

-- A turn does not panic, it ends the loop exactly if `quit` says so, and the app keeps its path.
abbrev pub Goes : {D F : Type 0} → Option String → Bool → Flow D F → Type 0
Goes path quit (on c) = (quit ≡ false) × (c.app.recording_path ≡ path)
Goes path quit (quits c) = (quit ≡ true) × (c.app.recording_path ≡ path)
Goes path quit panics = ⊥

-- An error that an export ends with is in ASCII.
abbrev AsciiExport : {F N : Type 0} → Exported F N → Type 0
AsciiExport (ok path bundle) = Unit
AsciiExport (err e) = IsAscii e

module _ {D F : Type 0} where
  failed_notice-Goes :
      (now : Time) (o : Option Text) (c : Console D F)
      → o ≢ none
      → Goes c.app.recording_path false (failed_notice now o c)
  failed_notice-Goes now none c h = absurd (h refl)
  failed_notice-Goes now (some t) c h = (refl, refl)

  inject_key-Goes :
      (now : Time) (o : Option String) (c : Console D F)
      → Goes c.app.recording_path false (inject_key now o c)
  inject_key-Goes now none c = (refl, refl)
  inject_key-Goes now (some symbol) c = (refl, refl)

module _ {D F N : Type 0} where
  export_notice-Goes :
      (now : Time) (result : Exported F N) (c : Console D F)
      → AsciiExport result
      → Goes c.app.recording_path false (export_notice now result c)
  export_notice-Goes now (ok path bundle) c a = (refl, refl)
  export_notice-Goes now (err e) c a =
      failed_notice-Goes now (short_error e) c (short_error-ascii e a)

up_keeps :
    (symbols : List String) (app : TuiApp)
    → (App.move_selection_up symbols app).recording_path ≡ app.recording_path
unfolding App.move_selection_up
up_keeps [] app = refl
up_keeps (s ∷ ss) app = ground arith

down_keeps :
    (symbols : List String) (app : TuiApp)
    → (App.move_selection_down symbols app).recording_path ≡ app.recording_path
unfolding App.move_selection_down
down_keeps [] app = refl
down_keeps (s ∷ ss) app = refl

module _ {D F N : Type 0} (f : Float F) (enc : Encoder F N) (paths : Paths) where
  export_last-ascii :
      (now logged : Time) (io : Option Text) (last : Option IncidentMeta) (s : AppState D F)
      → AsciiError io
      → AsciiExport (export_last f enc paths now logged io last s).0
  export_last-ascii now logged io none s a = omega arith
  export_last-ascii now logged none (some inc) s a = tt
  export_last-ascii now logged (some e) (some inc) s a = a

  export_key-Goes :
      (managed : Bool) (t : Turn D F) (c : Console D F)
      → AsciiError t.io
      → Goes c.app.recording_path false (export_key f enc paths managed t c)
  unfolding handle_export_incident
  export_key-Goes false t c a = (refl, refl)
  export_key-Goes true t c a =
      let (result, s) = handle_export_incident f enc paths t.now t.logged t.io c.state in
      export_notice-Goes t.now result (record c { state = s })
        (export_last-ascii t.now t.logged t.io c.state.last_incident c.state a)

  pub on_action-Goes :
      (managed : Bool) (action : TuiAction) (symbols : List String) (t : Turn D F) (c : Console D F)
      → AsciiError t.io
      → Goes c.app.recording_path
          (is_quit action)
          (on_action f enc paths managed action symbols t c)
  unfolding on_action
  on_action-Goes managed Keys.export_incident symbols t c a = export_key-Goes managed t c a
  on_action-Goes managed Keys.inject_fault symbols t c a =
      inject_key-Goes t.now (get_selected_symbol symbols c.app) c
  on_action-Goes managed Keys.move_selection_up symbols t c a = (refl, up_keeps symbols c.app)
  on_action-Goes managed Keys.move_selection_down symbols t c a = (refl, down_keeps symbols c.app)
  on_action-Goes managed action symbols t c a = (refl, refl)
