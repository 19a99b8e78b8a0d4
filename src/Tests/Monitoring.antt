-- ===== src/Tests/Monitoring.antt =====
-- The theorems on the health, the proofs of integrity, the event log, the incidents and the badge, at
-- concrete inputs.
use k_blackbox.Base.{
  ℕ, ◌-◌, ◌≤◌, ◌≡◌, ◌↔◌, ◌⊎◌, refl, List, [], ◌∷◌, ◌++◌, length, drop, min, Bool, true, false, none,
  some, if◌then◌else◌,
}
use k_blackbox.DashMap.{values}
use k_blackbox.Checksum.{compute_crc32, verify_checksum}
use k_blackbox.Checksum.Levels.{level_text}
use k_blackbox.Health.{
  SymbolHealth, ok, status, health_score, checksum_ok_rate, deduct_fail_rate, deduct_fails,
  deduct_disconnected,
}
use k_blackbox.Integrity.Proof.{IntegrityProof, is_match}
use k_blackbox.Integrity.Helper.{Readings, update_integrity_proof, update_integrity_proof_lem}
use k_blackbox.State.{AppState, UiEventLogEntry, checksum_ok, checksum_mismatch, get_events, new}
use k_blackbox.State.Events.{push_events, get_events-push_events}
use k_blackbox.State.Aggregate.{get_aggregated_events}
use k_blackbox.State.Aggregate.Lines.{Stands, get_aggregated_events-Stands}
use k_blackbox.State.Overall.{overall_health, min_from}
use k_blackbox.Tui.Snapshot.{
  UiSnapshot, integrity_badge_status, verified, degraded, broken, is_empty,
}
use k_blackbox.Tui.Snapshot.Badge.{AllClean, SomeBroken, integrity_badge_status_iff}
use k_blackbox.Tests.Values.{Fixed, fixed_decimal, thousandths, hasher, small_book}

abbrev healthy : SymbolHealth ℕ
healthy = record {
  symbol = "BTC/USD";
  connected = true;
  last_msg_ts = some 1000000000;
  total_msgs = 3;
  checksum_ok = 3;
  checksum_fail = 0;
  last_checksum_mismatch = none;
  consecutive_fails = 0;
  reconnect_count = 0;
  msg_rate_estimate = 0;
}

healthy_ok : status thousandths 2000000000 healthy ≡ ok
unfolding status health_score checksum_ok_rate deduct_fail_rate deduct_fails deduct_disconnected
healthy_ok = refl

abbrev proof : IntegrityProof Fixed
proof = record {
  expected_checksum = 0;
  computed_checksum = 0;
  checksum_preview = [];
  checksum_len = 0;
  top_asks = [];
  top_bids = [];
  verify_latency_ms = 0;
  last_verify_ts = 0;
  last_mismatch_ts = none;
  diagnosis = none;
  latency_history = 4 ∷ [];
}

abbrev readings : Readings
readings = record { started = 0; computed = 7000000; verified = 8; mismatched = 9 }

abbrev updated : Bool × IntegrityProof Fixed
updated = update_integrity_proof hasher readings proof small_book 1 2 2

update_integrity_proof_lem_example :
    (updated.0 ≡ verify_checksum hasher small_book 1 2 2)
    × (is_match updated.1 ≡ updated.0)
    × (updated.1.computed_checksum
        ≡ compute_crc32 hasher
            (level_text 2 2 updated.1.top_asks ++ level_text 2 2 updated.1.top_bids))
    × (updated.1.diagnosis
        ≡ (if updated.0 then proof.diagnosis else some (1, updated.1.computed_checksum)))
update_integrity_proof_lem_example =
    update_integrity_proof_lem hasher readings proof small_book 1 2 2

abbrev two_events : List UiEventLogEntry
two_events =
    record { timestamp = 1; event = checksum_ok "BTC/USD" }
    ∷ record { timestamp = 2; event = checksum_mismatch "BTC/USD" }
    ∷ []

abbrev fresh : AppState Fixed ℕ
fresh = new 0

fresh_log : fresh.event_log ≡ []
unfolding new
fresh_log = refl

get_events-push_events_example :
    get_events 1 (push_events two_events fresh) ≡ drop (length two_events - min 1 500) two_events
get_events-push_events_example = get_events-push_events fresh two_events 1 fresh_log

abbrev logged : AppState Fixed ℕ
logged = record fresh { event_log = two_events; health = ("BTC/USD", healthy) ∷ [] }

get_aggregated_events-Stands_example :
    (rest : List UiEventLogEntry) × Stands
      (get_aggregated_events 30 logged)
      (get_events 1000 logged)
      rest
    × (length (get_aggregated_events 30 logged) ≤ 30)
    × ((rest ≡ []) ⊎ (length (get_aggregated_events 30 logged) ≡ 30))
get_aggregated_events-Stands_example = get_aggregated_events-Stands 30 logged

logged_ok : (overall_health thousandths 2000000000 logged).status ≡ ok
unfolding overall_health values status health_score checksum_ok_rate deduct_fail_rate deduct_fails
    deduct_disconnected min_from
logged_ok = refl

abbrev snapshot : UiSnapshot Fixed ℕ
snapshot = record {
  mode = "live";
  connected = true;
  symbols = "BTC/USD" ∷ [];
  msg_rate = 0;
  recording_path = none;
  fault_status = "none";
  uptime_seconds = 0;
  health_status = ok;
  symbol_health =
      record {
        symbol = "BTC/USD";
        checksum_ok = 3;
        checksum_fail = 0;
        ok_rate = 1000;
        consecutive_fail = 0;
        last_mismatch = none;
        resync_count = 0;
        last_msg_age = none;
      }
      ∷ [];
  last_incident = none;
  incident_count = 0;
  events = [];
  integrity_proof = none;
  selected_symbol = none;
}

integrity_badge_status_iff_example :
    let clean =
      (snapshot.connected ≡ true)
      × (is_empty snapshot.symbol_health ≡ false)
      × AllClean thousandths 999 snapshot.symbol_health in
    let failing = (snapshot.connected ≡ false) ⊎ SomeBroken snapshot.symbol_health in
    ((integrity_badge_status thousandths 999 snapshot ≡ verified) ↔ clean)
    × ((integrity_badge_status thousandths 999 snapshot ≡ broken) ↔ failing)
    × ((integrity_badge_status thousandths 999 snapshot ≡ degraded) ↔ ((¬ clean) × (¬ failing)))
integrity_badge_status_iff_example = integrity_badge_status_iff thousandths 999 snapshot
