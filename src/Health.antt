-- ===== src/Health.antt =====
-- crates/blackbox-core/src/health.rs: the counters of one symbol, its score and its status.
pub mod Status
pub mod Counters
use k_blackbox.Base.{
  ℕ, ◌+◌, ◌-◌, ◌*◌, ◌%◌, min, Bool, true, false, not, Option, none, some, List, ltb, leb, ◌==◌,
  if◌then◌else◌, String,
}
use k_blackbox.Words.{u64_mod, inc_u64, saturating_sub, Time, seconds_since, Float}

pub record SymbolHealth (F : Type 0) : Type 0 where
  pub symbol : String
  pub connected : Bool
  pub last_msg_ts : Option Time
  pub total_msgs : ℕ
  pub checksum_ok : ℕ
  pub checksum_fail : ℕ
  pub last_checksum_mismatch : Option Time
  pub consecutive_fails : ℕ
  pub reconnect_count : ℕ
  pub msg_rate_estimate : F

pub data HealthStatus : Type 0 where
  ok warn fail : HealthStatus

module _ {F : Type 0} (f : Float F) where
  unfoldable pub new : String → SymbolHealth F
  new s = record {
    symbol = s;
    connected = false;
    last_msg_ts = none;
    total_msgs = 0;
    checksum_ok = 0;
    checksum_fail = 0;
    last_checksum_mismatch = none;
    consecutive_fails = 0;
    reconnect_count = 0;
    msg_rate_estimate = f.zero;
  }

  unfoldable pub checksum_ok_rate : SymbolHealth F → F
  checksum_ok_rate h =
      let total : ℕ = (h.checksum_ok + h.checksum_fail) % u64_mod in
      if total == 0 then f.one else f.div (f.of_u64 h.checksum_ok) (f.of_u64 total)

  -- The deductions of `health_score`, in its order.
  unfoldable pub deduct_fail_rate : SymbolHealth F → ℕ → ℕ
  deduct_fail_rate h score =
      let fail_rate = f.sub f.one (checksum_ok_rate h) in
      if f.lt f.one_hundredth fail_rate
      then saturating_sub score (f.to_u8 (f.mul fail_rate f.hundred))
      else score

  unfoldable pub deduct_fails : SymbolHealth F → ℕ → ℕ
  deduct_fails h score =
      if ltb 0 h.consecutive_fails
      then saturating_sub score ((min h.consecutive_fails 10 * 5) % 256)
      else score

  unfoldable pub deduct_disconnected : SymbolHealth F → ℕ → ℕ
  deduct_disconnected h score = if not h.connected then saturating_sub score 50 else score

  abbrev pub deduct_age : Time → Option Time → ℕ → ℕ
  deduct_age now (some last_ts) score =
      if ltb 60 (seconds_since now last_ts) then saturating_sub score 30 else score
  deduct_age now none score = saturating_sub score 30

  unfoldable pub health_score : Time → SymbolHealth F → ℕ
  unfolding deduct_fail_rate deduct_fails deduct_disconnected
  health_score now h =
      deduct_age now h.last_msg_ts (deduct_disconnected h (deduct_fails h (deduct_fail_rate h 100)))

  unfoldable pub status : Time → SymbolHealth F → HealthStatus
  status now h =
      let score = health_score now h in
      if leb 90 score then ok else if leb 70 score then warn else fail

module _ {F : Type 0} where
  unfoldable pub record_checksum_ok : SymbolHealth F → SymbolHealth F
  unfolding inc_u64
  record_checksum_ok h = record h { checksum_ok = inc_u64 h.checksum_ok; consecutive_fails = 0 }

  unfoldable pub record_checksum_fail : Time → SymbolHealth F → SymbolHealth F
  unfolding inc_u64
  record_checksum_fail now h = record h {
    checksum_fail = inc_u64 h.checksum_fail;
    consecutive_fails = inc_u64 h.consecutive_fails;
    last_checksum_mismatch = some now;
  }

  unfoldable pub record_message : Time → SymbolHealth F → SymbolHealth F
  unfolding inc_u64
  record_message now h = record h { total_msgs = inc_u64 h.total_msgs; last_msg_ts = some now }

  unfoldable pub update_msg_rate : F → SymbolHealth F → SymbolHealth F
  update_msg_rate rate h = record h { msg_rate_estimate = rate }

pub record OverallHealth (F : Type 0) : Type 0 where
  pub status : HealthStatus
  pub symbols : List (SymbolHealth F)
  pub uptime_seconds : ℕ
