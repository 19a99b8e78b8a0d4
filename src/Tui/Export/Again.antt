-- ===== src/Tui/Export/Again.antt =====
-- crates/blackbox-server/src/tui/ui.rs: what a replay after an export reads.
use k_blackbox.Base.{◌≡◌, List, [], ◌∷◌, Option, none, some, String, length}
use k_blackbox.Words.{Time, inc_u64}
use k_blackbox.DashMap.{Map, get, get_or, insert}
use k_blackbox.Integrity.Proof.{IncidentMeta}
use k_blackbox.State.{AppState, push_event, incident_exported}
use k_blackbox.Tui.Export.{
  DiskFile, joined, zipped, Exported, ok, err, Paths, with_paths, handle_replay_incident,
}

module _ {F N : Type 0} where
  -- The disk after the files were written: a file that is there already is replaced.
  pub store : List (String × DiskFile F N) → Map (DiskFile F N) → Map (DiskFile F N)
  store [] disk = disk
  store ((path, file) ∷ files) disk = store files (insert path file disk)

  -- The frames in the file at a path.
  abbrev pub frames_of : Option (DiskFile F N) → Option (List String)
  frames_of (some (joined frames)) = some frames
  frames_of (some (zipped files)) = none
  frames_of none = none

module _ {D F N : Type 0} (paths : Paths) where
  -- What the state `s` before an export, `s'` after it and a later state `t` with the last incident of
  -- `s'` have to do with the result.
  abbrev pub Replays :
      Time
      → Time
      → Map (DiskFile F N)
      → AppState D F
      → AppState D F
      → AppState D F
      → Exported F N
      → Type 0
  Replays logged later disk s s' t (ok zip files) =
      (inc : IncidentMeta) × (path : String) × (s.last_incident ≡ some inc)
      × (zip ≡ paths.zip inc.id)
      × ((handle_replay_incident paths later t).0 ≡ some path)
      × (frames_of (get path (store files disk)) ≡ some (get_or [] inc.symbol s.per_symbol_frames))
      × (t.last_incident
          ≡ some (with_paths paths (length (get_or [] inc.symbol s.per_symbol_frames)) inc))
      × (s'.incident_count ≡ inc_u64 s.incident_count)
      × (s'.event_log ≡ (push_event logged (incident_exported zip) s).event_log)
  Replays logged later disk s s' t (err e) =
      ((handle_replay_incident paths later t).0 ≡ (handle_replay_incident paths later s).0)
      × (s'.incident_count ≡ s.incident_count)
      × (s'.event_log ≡ s.event_log)
