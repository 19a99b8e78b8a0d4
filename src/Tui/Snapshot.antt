-- ===== src/Tui/Snapshot.antt =====
-- crates/blackbox-server/src/tui/snapshot.rs: the rows of the symbols and the badge of integrity.
pub mod Badge
use k_blackbox.Base.{
  ℕ, ◌/◌, ◌≡◌, ◌↔◌, refl, List, [], ◌∷◌, map, Bool, true, false, not, All, ◌||◌, Option, none, some,
  String, str_eq, ltb, leb, if◌then◌else◌, arith,
}
use k_blackbox.Words.{Time, Float, seconds_since}
use k_blackbox.DashMap.{Map, get, keys, values}
use k_blackbox.Health.{SymbolHealth, HealthStatus, checksum_ok_rate}
use k_blackbox.Integrity.Proof.{IntegrityProof, IncidentMeta}
use k_blackbox.State.{AppState, uptime_seconds}
use k_blackbox.State.Overall.{overall_health}
use k_blackbox.State.Aggregate.{AggregatedEvent, get_aggregated_events}

-- The texts "{}s ago", "{}m ago" and "{}h ago".
pub data Age : Type 0 where
  seconds minutes hours : ℕ → Age

unfoldable pub age_of : ℕ → Age
age_of n =
    if ltb n 60 then seconds n else if ltb (n / 60) 60 then minutes (n / 60) else hours (n / 3600)

pub record SymbolHealthRow (F : Type 0) : Type 0 where
  pub symbol : String
  pub checksum_ok : ℕ
  pub checksum_fail : ℕ
  pub ok_rate : F
  pub consecutive_fail : ℕ
  pub last_mismatch : Option Age
  pub resync_count : ℕ
  pub last_msg_age : Option ℕ

pub record LastIncidentInfo : Type 0 where
  pub id : String
  pub symbol : Option String
  pub reason : String
  pub timestamp : Time

pub record UiSnapshot (D F : Type 0) : Type 0 where
  pub mode : String
  pub connected : Bool
  pub symbols : List String
  pub msg_rate : F
  pub recording_path : Option String
  pub fault_status : String
  pub uptime_seconds : ℕ
  pub health_status : HealthStatus
  pub symbol_health : List (SymbolHealthRow F)
  pub last_incident : Option LastIncidentInfo
  pub incident_count : ℕ
  pub events : List AggregatedEvent
  pub integrity_proof : Option (IntegrityProof D)
  pub selected_symbol : Option String

pub data IntegrityStatus : Type 0 where
  verified degraded broken : IntegrityStatus

abbrev pub map_option : {A B : Type 0} → (A → B) → Option A → Option B
map_option f none = none
map_option f (some a) = some (f a)

abbrev pub is_in : List String → String → Bool
is_in [] s = false
is_in (x ∷ xs) s = str_eq x s || is_in xs s

abbrev pub keep_in : List String → List String → List String
keep_in all [] = []
keep_in all (s ∷ ss) = let rest = keep_in all ss in if is_in all s then s ∷ rest else rest

-- The requested symbols that have a health entry, in the order of the request, or all of them.
unfoldable pub shown_symbols : List String → Option (List String) → List String
shown_symbols all none = all
shown_symbols all (some requested) = keep_in all requested

module _ {F : Type 0} (f : Float F) where
  abbrev pub total_rate : List (SymbolHealth F) → F → F
  total_rate [] rate = rate
  total_rate (h ∷ hs) rate = total_rate hs (f.add rate h.msg_rate_estimate)

  -- Each row reads the clock; the readings are taken as one, `now`.
  unfoldable pub row_of : Time → SymbolHealth F → SymbolHealthRow F
  unfolding age_of
  row_of now h = record {
    symbol = h.symbol;
    checksum_ok = h.checksum_ok;
    checksum_fail = h.checksum_fail;
    ok_rate = checksum_ok_rate f h;
    consecutive_fail = h.consecutive_fails;
    last_mismatch = map_option (λ ts. age_of (seconds_since now ts)) h.last_checksum_mismatch;
    resync_count = h.reconnect_count;
    last_msg_age = map_option (λ ts. seconds_since now ts) h.last_msg_ts;
  }

abbrev pub any_connected : {F : Type 0} → List (SymbolHealth F) → Bool
any_connected [] = false
any_connected (h ∷ hs) = h.connected || any_connected hs

abbrev pub info_of : IncidentMeta → LastIncidentInfo
info_of i = record {
  id = i.id;
  symbol = some i.symbol;
  reason = i.reason;
  timestamp = i.created_at;
}

abbrev pub proof_of :
    {D : Type 0} → Option String → Map (IntegrityProof D) → Option (IntegrityProof D)
proof_of none m = none
proof_of (some symbol) m = get symbol m

module _ {D F : Type 0} (f : Float F) where
  unfoldable pub from_state :
      Time
      → AppState D F
      → String
      → Option String
      → String
      → Option String
      → Option (List String)
      → UiSnapshot D F
  unfolding row_of shown_symbols
  from_state now s mode recording_path fault_status selected requested =
      let overall = overall_health f now s in
      record {
        mode = mode;
        connected = any_connected overall.symbols;
        symbols = shown_symbols (keys s.health) requested;
        msg_rate = total_rate f (values s.health) f.zero;
        recording_path = recording_path;
        fault_status = fault_status;
        uptime_seconds = uptime_seconds now s;
        health_status = overall.status;
        symbol_health = map (row_of f now) (values s.health);
        last_incident = map_option info_of s.last_incident;
        incident_count = s.incident_count;
        events = get_aggregated_events 30 s;
        integrity_proof = proof_of selected s.integrity_proofs;
        selected_symbol = selected;
      }

module _ {F : Type 0} (f : Float F) (threshold : F) where
  -- `threshold` is 0.9999.
  abbrev pub has_issue : SymbolHealthRow F → Bool
  has_issue r = f.lt r.ok_rate threshold || ltb 0 r.consecutive_fail

abbrev pub any : {F : Type 0} → (SymbolHealthRow F → Bool) → List (SymbolHealthRow F) → Bool
any test [] = false
any test (r ∷ rs) = test r || any test rs

abbrev pub is_empty : {A : Type 0} → List A → Bool
is_empty [] = true
is_empty (x ∷ xs) = false

-- The status; its label is a fixed text for each.
unfoldable pub integrity_badge_status :
    {D F : Type 0} → Float F → F → UiSnapshot D F → IntegrityStatus
integrity_badge_status f threshold snap =
    if not snap.connected
    then broken
    else if is_empty snap.symbol_health
    then degraded
    else if any (λ r. leb 3 r.consecutive_fail) snap.symbol_health
    then broken
    else if any (has_issue f threshold) snap.symbol_health
    then degraded
    else verified
