-- ===== src/Tui/Actions.antt =====
-- crates/blackbox-server/src/tui/ui.rs: the actions on the shared state.
use k_blackbox.Base.{
  ◌≡◌, refl, sym, subst, Bool, true, false, Bool-cases, inl, inr, Option, none, some, String,
  if◌then◌else◌,
}
use k_blackbox.Words.{Time}
use k_blackbox.Integrity.Injector.{trigger}
use k_blackbox.Recorder
use k_blackbox.Recorder.{Recorder}
use k_blackbox.State.{
  AppState, record_stopped, record_started, error, fault_injected, push_event,
  set_recording_enabled, set_recording_path,
}

abbrev pub Recording : Bool → Option Recorder → Option String → Type 0
Recording true (some r) (some path) = (r.is_open ≡ true) × (r.path ≡ path)
Recording true (some r) none = ⊥
Recording true none path = ⊥
Recording false (some r) path = ⊥
Recording false none path = path ≡ none

module _ {D F : Type 0} where
  -- The branch that stops. The recorder is closed before it is given up.
  unfoldable pub stop_recording : Time → AppState D F → AppState D F
  unfolding set_recording_enabled set_recording_path push_event
  stop_recording now s =
      push_event now record_stopped
        (set_recording_path none (set_recording_enabled false (record s { recorder = none })))

  -- `path` is made from the time; `created` says whether the file could be created, and `message` is
  -- the error text if not.
  unfoldable pub handle_toggle_recording :
      Time → String → Bool → String → AppState D F → AppState D F
  unfolding stop_recording
  handle_toggle_recording now path created message s =
      if s.recording_enabled
      then stop_recording now s
      else if created
      then push_event now (record_started path) (
          set_recording_path (some path)
            (set_recording_enabled true (record s { recorder = some (Recorder.new path) })))
      else push_event now (error message) s

  unfoldable pub handle_fault_injection : Time → String → AppState D F → AppState D F
  unfolding push_event
  handle_fault_injection now symbol s =
      push_event now (fault_injected "MutateQty" symbol)
        (record s { fault_injector = trigger symbol s.fault_injector })

  -- The flag, the recorder and the path agree: while recording there is an open recorder of the path
  -- that is shown, and otherwise there is neither.
  abbrev pub IsConsistent : AppState D F → Type 0
  IsConsistent s = Recording s.recording_enabled s.recorder s.recording_path

  -- Switching the recording on or off, or failing to, keeps the flag, the recorder and the path in
  -- agreement.
  pub handle_toggle_recording-IsConsistent :
      (now : Time) (path : String) (created : Bool) (message : String) (s : AppState D F)
      → IsConsistent s
      → IsConsistent (handle_toggle_recording now path created message s)
  unfolding handle_toggle_recording Recorder.new push_event
  handle_toggle_recording-IsConsistent now path created message s c =
      elim (Bool-cases s.recording_enabled) [
        | inl e ↦ rw e refl
        | inr e ↦ elim (Bool-cases created) [
          | inl k ↦ rw e (rw k (refl, refl))
          | inr k ↦ subst IsConsistent (sym (unchanged e k)) c
        ]
      ]
    where
      unchanged :
          s.recording_enabled ≡ false
          → created ≡ false
          → handle_toggle_recording now path created message s ≡ push_event now (error message) s
      unchanged e k = rw e (rw k refl)
