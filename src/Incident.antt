-- ===== src/Incident.antt =====
-- crates/blackbox-core/src/incident.rs and crates/blackbox-server/src/incident.rs: incidents, their
-- manager, and the files of an exported bundle. Writing the archive is outside the model.
pub mod Window
use k_blackbox.Base.{
  ℕ, ◌+◌, ◌-◌, ◌*◌, ◌/◌, List, [], ◌∷◌, ◌++◌, Bool, true, false, ◌&&◌, Option, none, some, String,
  leb, if◌then◌else◌,
}
use k_blackbox.Words.{Time}
use k_blackbox.Json.{Value, object, end}
use k_blackbox.Types.{InstrumentInfo}

pub data IncidentReason : Type 0 where
  checksum_mismatch rate_limit disconnect manual_export fault_inject : IncidentReason

pub record Incident (N : Type 0) : Type 0 where
  pub id : String
  pub timestamp : Time
  pub reason : IncidentReason
  pub symbol : Option String
  pub metadata : Value N

unfoldable pub reason_str : IncidentReason → String
reason_str checksum_mismatch = "checksum"
reason_str rate_limit = "ratelimit"
reason_str disconnect = "disconnect"
reason_str manual_export = "manual"
reason_str fault_inject = "fault"

abbrev pub second : Time
second = 1000000000

-- `format_id` is the text "incident_{}_{}" of the seconds and the reason. The clock is read twice.
unfoldable pub new :
    {N : Type 0} → (ℕ → String → String) → Time → Time → IncidentReason → Option String → Incident N
new format_id id_now now reason symbol = record {
  id = format_id (id_now / second) (reason_str reason);
  timestamp = now;
  reason = reason;
  symbol = symbol;
  metadata = object end;
}

unfoldable pub with_metadata : {N : Type 0} → Value N → Incident N → Incident N
with_metadata m i = record i { metadata = m }

pub record IncidentManager (N : Type 0) : Type 0 where
  pub incidents : List (Incident N)
  pub last_incident : Option (Incident N)
  pub incidents_dir : String

module _ {N : Type 0} where
  unfoldable pub new_manager : String → IncidentManager N
  new_manager dir = record { incidents = []; last_incident = none; incidents_dir = dir }

  unfoldable pub record_incident :
      (ℕ → String → String)
      → Time
      → Time
      → IncidentReason
      → Option String
      → Value N
      → IncidentManager N
      → Incident N × IncidentManager N
  record_incident format_id id_now now reason symbol metadata m =
      let incident = with_metadata metadata (new format_id id_now now reason symbol) in
      (
        incident,
        record m { incidents = m.incidents ++ incident ∷ []; last_incident = some incident },
      )

-- A file of the bundle, before it is written as JSON.
pub data BundleFile (D N : Type 0) : Type 0 where
  -- The incident, the config, the health, the instrument and the top of the book.
  metadata :
      Incident N → Value N → Value N → Option (InstrumentInfo D) → Option (Value N) → BundleFile D N
  json : Value N → BundleFile D N
  instrument : InstrumentInfo D → BundleFile D N
  frames : List (Time × String) → BundleFile D N

-- `*ts >= window_start && *ts <= window_end`, 30 seconds before and 5 seconds after. A start before
-- the epoch is 0 here, and no frame is older than that.
unfoldable pub in_window : Time → Time → Bool
in_window at ts = leb (at - 30 * second) ts && leb ts (at + 5 * second)

unfoldable pub relevant_frames : Time → List (Time × String) → List (Time × String)
relevant_frames at [] = []
relevant_frames at ((ts, frame) ∷ fs) =
    if in_window at ts then (ts, frame) ∷ relevant_frames at fs else relevant_frames at fs

module _ {D N : Type 0} where
  abbrev pub optional :
      {A : Type 0} → String → (A → BundleFile D N) → Option A → List (String × BundleFile D N)
  optional name file none = []
  optional name file (some a) = (name, file a) ∷ []

  unfoldable pub bundle :
      Incident N
      → Value N
      → Value N
      → Option (InstrumentInfo D)
      → Option (Value N)
      → List (Time × String)
      → Time
      → List (String × BundleFile D N)
  bundle incident config health inst book_top all_frames incident_time =
      ("metadata.json", metadata incident config health inst book_top)
      ∷ ("config.json", json config)
      ∷ ("health.json", json health)
      ∷ (optional "instrument.json" instrument inst
          ++ (optional "book_top.json" json book_top
              ++ ("frames.ndjson", frames (relevant_frames incident_time all_frames)) ∷ []))
