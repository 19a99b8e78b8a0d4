-- ===== src/Tui/Export.antt =====
-- crates/blackbox-server/src/tui/ui.rs: exporting the last incident, and replaying it.
pub mod Again
use k_blackbox.Base.{
  ℕ, ◌≡◌, refl, List, [], ◌∷◌, ◌++◌, length, Option, none, some, String, codes, arith,
}
use k_blackbox.Decimal.{Text}
use k_blackbox.Words.{Time, Float, inc_u64}
use k_blackbox.Json.{Value, string, number, array, object, nil, cons, end, field}
use k_blackbox.Json
use k_blackbox.DashMap.{get, keys}
use k_blackbox.Health.{OverallHealth}
use k_blackbox.Integrity.Proof.{IntegrityProof, IncidentMeta}
use k_blackbox.Export.{Encoder}
use k_blackbox.State.{
  AppState, UiEvent, record_started, record_stopped, incident_exported, push_event,
  get_or_create_frame_buffer, set_last_incident,
}
use k_blackbox.State.Overall.{overall_health}

-- A file of the archive.
pub data ExportFile (F N : Type 0) : Type 0 where
  meta : IncidentMeta → ExportFile F N
  json : Value N → ExportFile F N
  lines : List String → ExportFile F N

-- A file on the disk: the archive, or the frames joined by line breaks.
pub data DiskFile (F N : Type 0) : Type 0 where
  zipped : List (String × ExportFile F N) → DiskFile F N
  joined : List String → DiskFile F N

-- The path of the archive with the files that were written, each at its path, or the text of the error.
pub data Exported (F N : Type 0) : Type 0 where
  ok : String → List (String × DiskFile F N) → Exported F N
  err : Text → Exported F N

-- The paths "./incidents/{id}.zip" and "./incidents/{id}_frames.ndjson", and the text "replay: {:?}".
pub record Paths : Type 0 where
  pub zip : String → String
  pub frames : String → String
  pub replay : String → String

abbrev pub with_paths : Paths → ℕ → IncidentMeta → IncidentMeta
with_paths paths n inc = record inc {
  zip_path = some (paths.zip inc.id);
  frames_path = some (paths.frames inc.id);
  frame_count = n;
}

-- The frames go to the path that the updated incident has.
abbrev pub written_to : {F N : Type 0} → Option String → List String → List (String × DiskFile F N)
written_to none frames = []
written_to (some path) frames = (path, joined frames) ∷ []

module _ {F N : Type 0} (enc : Encoder F N) where
  abbrev pub array_of : List String → Json.Items N
  array_of [] = nil
  array_of (s ∷ ss) = cons (string s) (array_of ss)

  abbrev pub checksums_json : {D : Type 0} → IntegrityProof D → Value N
  checksums_json p = object (
      field "expected" (number (enc.of_u32 p.expected_checksum)) (
        field "computed" (number (enc.of_u32 p.computed_checksum)) (
          field "preview" (enc.text p.checksum_preview) (
            field "length" (number (enc.of_u32 p.checksum_len))
              (field "latency_ms" (number (enc.of_u32 p.verify_latency_ms)) end)))))

  abbrev pub checksums_file :
      {D : Type 0} → Option (IntegrityProof D) → List (String × ExportFile F N)
  checksums_file none = []
  checksums_file (some p) = ("checksums.json", json (checksums_json p)) ∷ []

module _ {D F N : Type 0} (f : Float F) (enc : Encoder F N) (paths : Paths) where
  -- The archive. The health is read at `now`.
  unfoldable pub archive :
      Time → IncidentMeta → List String → AppState D F → List (String × ExportFile F N)
  archive now inc frames s =
      ("metadata.json", meta inc)
      ∷ ("config.json", json (object (field "symbols" (array (array_of enc (keys s.health))) end)))
      ∷ ("health.json", json (enc.health (overall_health f now s)))
      ∷ ("frames.ndjson", lines frames)
      ∷ checksums_file enc (get inc.symbol s.integrity_proofs)

  -- The export of an incident. `io` is the error of the first file operation that fails.
  abbrev pub export_meta :
      Time → Time → Option Text → IncidentMeta → AppState D F → Exported F N × AppState D F
  export_meta now logged io inc s =
      let (frames, s') = get_or_create_frame_buffer inc.symbol s in
      let zip_path = paths.zip inc.id in
      let updated = with_paths paths (length frames) inc in
      elim io [
        | some e ↦ (err e, s')
        | none ↦ (
          ok zip_path (
              (zip_path, zipped (archive now inc frames s'))
              ∷ written_to updated.frames_path frames),
          push_event logged (incident_exported zip_path) (set_last_incident updated s'),
        )
      ]

  abbrev pub export_last :
      Time → Time → Option Text → Option IncidentMeta → AppState D F → Exported F N × AppState D F
  export_last now logged io none s = (err (codes "No incident to export"), s)
  export_last now logged io (some inc) s = export_meta now logged io inc s

  unfoldable pub handle_export_incident :
      Time → Time → Option Text → AppState D F → Exported F N × AppState D F
  unfolding push_event set_last_incident get_or_create_frame_buffer archive
  handle_export_incident now logged io s = export_last now logged io s.last_incident s

abbrev pub frames_path_of : Option IncidentMeta → Option String
frames_path_of none = none
frames_path_of (some inc) = inc.frames_path

module _ {D F : Type 0} (paths : Paths) where
  -- The path of the frames that a task is started for, and the state.
  abbrev pub replay_path : Time → Option String → AppState D F → Option String × AppState D F
  replay_path now none s = (none, s)
  replay_path now (some path) s = (some path, push_event now (record_started (paths.replay path)) s)

  unfoldable pub handle_replay_incident : Time → AppState D F → Option String × AppState D F
  unfolding push_event
  handle_replay_incident now s = replay_path now (frames_path_of s.last_incident) s

-- The task that was started: `content` is what the file holds, if it can be read. The lines are only
-- counted in the program's log.
unfoldable pub replay_incident_frames :
    {D F : Type 0} → Time → Option (List String) → AppState D F → AppState D F
unfolding push_event
replay_incident_frames now none s = s
replay_incident_frames now (some content) s = push_event now record_stopped s
