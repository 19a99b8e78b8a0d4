-- ===== src/Setup/Prepared.antt =====
-- crates/blackbox-server/src/main.rs: the state in which `run_tui_mode` starts its tasks, and the
-- text of the header.
use k_blackbox.Base.{
  ℕ, ◌≡◌, ◌↔◌, refl, List, [], ◌∷◌, All, Bool, true, false, Option, none, some, String, eq_iff,
  if◌then◌else◌, arith,
}
use k_blackbox.Decimal.{Text}
use k_blackbox.Words.{Time, Float}
use k_blackbox.DashMap.{insert, get_or, contains_key, get-insert}
use k_blackbox.Health
use k_blackbox.State.{
  AppState, get_depth, set_depth, push_event, set_recording_path, set_recording_enabled,
}
use k_blackbox.Setup.{
  mode_text, is_given, mock_data, task_of, prepare_symbols, start_recorder, prepare_tui,
}

module _ {D F : Type 0} where
  -- The depth of the symbol, and it has a health entry.
  abbrev pub IsReady : ℕ → AppState D F → String → Type 0
  IsReady depth s symbol = (get_depth symbol s ≡ depth) × (contains_key symbol s.health ≡ true)

module _ {D F : Type 0} (f : Float F) where
  abbrev prepared : ℕ → String → AppState D F → AppState D F
  prepared depth symbol s =
      let deep = set_depth symbol depth s in
      if contains_key symbol deep.health
      then deep
      else record deep { health = insert symbol (Health.new f symbol) deep.health }

  prepared-IsReady :
      (depth : ℕ) (symbol : String) (s : AppState D F)
      → IsReady depth (prepared depth symbol s) symbol
  unfolding get_depth get_or contains_key set_depth
  prepared-IsReady depth symbol s = ground (
    arith,
    get-insert symbol symbol depth s.depths,
    get-insert symbol symbol (Health.new f symbol) s.health,
    eq_iff symbol symbol,
  )

  prepared_keeps :
      (depth : ℕ) (symbol other : String) (s : AppState D F)
      → IsReady depth s other
      → IsReady depth (prepared depth symbol s) other
  unfolding get_depth get_or contains_key set_depth
  prepared_keeps depth symbol other s r = ground (
    arith,
    get-insert symbol other depth s.depths,
    get-insert symbol other (Health.new f symbol) s.health,
    eq_iff symbol other,
  )

  prepare_symbols_keeps :
      (depth : ℕ) (symbols : List String) (other : String) (s : AppState D F)
      → IsReady depth s other
      → IsReady depth (prepare_symbols f depth symbols s) other
  unfolding prepare_symbols
  prepare_symbols_keeps depth [] other s r = r
  prepare_symbols_keeps depth (symbol ∷ symbols) other s r =
      prepare_symbols_keeps depth symbols other (prepared depth symbol s)
        (prepared_keeps depth symbol other s r)

  All-prepare_symbols :
      (depth : ℕ) (symbols : List String) (s : AppState D F)
      → All (IsReady depth (prepare_symbols f depth symbols s)) symbols
  unfolding prepare_symbols
  All-prepare_symbols depth [] s = tt
  All-prepare_symbols depth (symbol ∷ symbols) s = (
    prepare_symbols_keeps depth symbols symbol (prepared depth symbol s)
        (prepared-IsReady depth symbol s),
    All-prepare_symbols depth symbols (prepared depth symbol s),
  )

  start_recorder-All :
      (now : Time) (created : Bool) (path : Option String) (depth : ℕ) (symbols : List String)
      (s : AppState D F)
      → All (IsReady depth s) symbols
      → All (IsReady depth (start_recorder f now created path s)) symbols
  unfolding get_depth push_event set_recording_path set_recording_enabled
  start_recorder-All now created none depth symbols s a = a
  start_recorder-All now true (some path) depth symbols s a = a
  start_recorder-All now false (some path) depth symbols s a = a

module _ (D : Type 0) {F : Type 0} (f : Float F) where
  -- Before any data comes, every symbol of the command line has the depth that was asked for and a health
  -- entry.
  pub prepare_tui-IsReady :
      (now logged : Time) (depth : ℕ) (symbols : List String) (created : Bool)
      (path : Option String)
      → All (IsReady {D = D} depth (prepare_tui f now logged depth symbols created path)) symbols
  unfolding prepare_tui
  prepare_tui-IsReady now logged depth symbols created path =
      start_recorder-All f logged created path depth symbols _
        (All-prepare_symbols f depth symbols _)

module _ {F I : Type 0} (is_one is_positive : F → Bool) (one_tick : I) where
  -- The header says "REPLAY" while the task makes up its data exactly if both are asked for.
  pub mode_text_wrong_iff :
      (speed : F) (fault : String) (once_at : Option ℕ) (interval : Text) (replay : Option String)
      (mock : Bool)
      → ((mode_text replay mock ≡ "REPLAY")
          × (task_of is_one is_positive one_tick speed fault once_at interval replay mock
              ≡ mock_data))
        ↔ ((is_given replay ≡ true) × (mock ≡ true))
  unfolding mode_text task_of
  mode_text_wrong_iff speed fault once_at interval (some path) true =
      ((λ h. (refl, refl)), λ h. (refl, refl))
  mode_text_wrong_iff speed fault once_at interval (some path) false = ((λ h. absurd (cc)), λ h. cc)
  mode_text_wrong_iff speed fault once_at interval none true =
      ((λ h. let e : false ≡ true = (eq_iff "MOCK" "REPLAY").1 h.0 in absurd (cc)), λ h. cc)
  mode_text_wrong_iff speed fault once_at interval none false =
      ((λ h. let e : false ≡ true = (eq_iff "LIVE" "REPLAY").1 h.0 in absurd (cc)), λ h. cc)
