-- ===== src/Tui/Widgets.antt =====
-- crates/blackbox-server/src/tui/widgets.rs: what the widgets show, as data: the values, the colours that
-- depend on them and the order of the lines. Fixed texts, layout and the drawing by ratatui are left out.
pub mod Marks
pub mod Book
pub mod Best
pub mod Durations
use k_blackbox.Base.{
  ℕ, zero, suc, ◌+◌, ◌-◌, ◌*◌, ◌/◌, ◌%◌, ◌^◌, min, max, List, [], ◌∷◌, ◌++◌, map, reverse, length,
  take, get_last?, Bool, true, false, ◌||◌, Option, none, some, String, ltb, ◌==◌, if◌then◌else◌,
}
use k_blackbox.Ord.{Ord}
use Prim.Native.Nat.Ordering.{eq}
use k_blackbox.Decimal.{Decimal, Text, Level}
use k_blackbox.Words.{Time, Float}
use k_blackbox.DashMap.{get}
use k_blackbox.Orderbook.{Orderbook, best_bid, best_ask, spread, mid, bids_vec, asks_vec}
use k_blackbox.Integrity.Proof.{IntegrityProof, LatencyStats, is_match, latency_stats}
use k_blackbox.State.{AppState}
use k_blackbox.State.Aggregate.{EventColor, normal, info, warning, failure, Arg, AggregatedEvent}
use k_blackbox.Tui.Snapshot.{
  Age, SymbolHealthRow, LastIncidentInfo, UiSnapshot, IntegrityStatus, verified, degraded, broken,
  integrity_badge_status, map_option,
}

pub data Color : Type 0 where
  white red yellow cyan green dark_gray blue reset light_red : Color

unfoldable pub to_color : EventColor → Color
to_color normal = white
to_color failure = red
to_color warning = yellow
to_color info = cyan

-- "{}s", "{}m {}s" and "{}h {}m".
pub data Duration : Type 0 where
  secs : ℕ → Duration
  mins hours : ℕ → ℕ → Duration

unfoldable pub format_duration : ℕ → Duration
format_duration seconds =
    if ltb seconds 60
    then secs seconds
    else if ltb seconds 3600
    then mins (seconds / 60) (seconds % 60)
    else hours (seconds / 3600) (seconds % 3600 / 60)

pub record Badge : Type 0 where
  pub status : IntegrityStatus
  pub color : Color
  pub uptime : Duration
  pub incidents : ℕ
  pub last_event : Option (String × List Arg)
  pub event_color : Color
  pub last_incident : String

abbrev pub badge_color : IntegrityStatus → Color
badge_color verified = green
badge_color degraded = yellow
badge_color broken = red

abbrev pub last_event_color : Option AggregatedEvent → Color
last_event_color none = white
last_event_color (some e) = to_color e.color

abbrev pub id_or_none : Option LastIncidentInfo → String
id_or_none none = "none"
id_or_none (some i) = i.id

unfoldable pub integrity_badge : {D F : Type 0} → Float F → F → UiSnapshot D F → Badge
unfolding format_duration to_color integrity_badge_status
integrity_badge f threshold snapshot =
    let status = integrity_badge_status f threshold snapshot in
    let last = get_last? snapshot.events in
    record {
      status = status;
      color = badge_color status;
      uptime = format_duration snapshot.uptime_seconds;
      incidents = snapshot.incident_count;
      last_event = map_option (λ e. (e.template, e.args)) last;
      event_color = last_event_color last;
      last_incident = id_or_none snapshot.last_incident;
    }

pub record TableRow (F : Type 0) : Type 0 where
  pub row : SymbolHealthRow F
  pub percent : F
  pub ok_color : Color
  pub background : Color
  pub message_age : Option Duration

abbrev pub is_some : {A : Type 0} → Option A → Bool
is_some none = false
is_some (some a) = true

-- `high` is 0.9999 and `low` is 0.95; `i` is the index of the row.
unfoldable pub table_row : {F : Type 0} → Float F → F → F → ℕ → ℕ → SymbolHealthRow F → TableRow F
unfolding format_duration
table_row f high low selected i r = record {
  row = r;
  percent = f.mul r.ok_rate f.hundred;
  ok_color = if f.lt high r.ok_rate then green else if f.lt low r.ok_rate then yellow else red;
  background =
      if i == selected
      then blue
      else if ltb 0 r.consecutive_fail || is_some r.last_mismatch
      then dark_gray
      else reset;
  message_age = map_option format_duration r.last_msg_age;
}

unfoldable pub table_rows :
    {F : Type 0} → Float F → F → F → ℕ → ℕ → List (SymbolHealthRow F) → List (TableRow F)
unfolding table_row
table_rows f high low selected i [] = []
table_rows f high low selected i (r ∷ rs) =
    table_row f high low selected i r ∷ table_rows f high low selected (suc i) rs

pub record Inspector (D F : Type 0) : Type 0 where
  pub symbol : String
  pub matches : Bool
  pub expected : ℕ
  pub computed : ℕ
  -- `wrapping_sub`, where the checksums differ.
  pub diff : Option ℕ
  pub preview : Text
  pub checksum_len : ℕ
  pub latency : LatencyStats F
  pub asks : List (Level D)
  pub bids : List (Level D)
  pub last_verify : Time
  -- Nothing, or the time and the diagnosis.
  pub last_mismatch : Option (Time × Option (ℕ × ℕ))

abbrev pub or_empty : Option String → String
or_empty none = ""
or_empty (some s) = s

-- `share` is 0.95. The preview holds digits, a byte each.
abbrev pub inspect : {D F : Type 0} → Float F → F → Option String → IntegrityProof D → Inspector D F
inspect f share symbol p = record {
  symbol = or_empty symbol;
  matches = is_match p;
  expected = p.expected_checksum;
  computed = p.computed_checksum;
  diff =
      if is_match p
      then none
      else some ((p.expected_checksum + 2 ^ 32 - p.computed_checksum) % 2 ^ 32);
  preview = take (min (length p.checksum_preview) 64) p.checksum_preview;
  checksum_len = p.checksum_len;
  latency = latency_stats f share p;
  asks = take 10 p.top_asks;
  bids = take 10 p.top_bids;
  last_verify = p.last_verify_ts;
  last_mismatch = map_option (λ ts. (ts, p.diagnosis)) p.last_mismatch_ts;
}

-- Without a proof the widget says that no symbol is selected.
unfoldable pub integrity_inspector :
    {D F : Type 0}
    → Float F
    → F
    → Option (IntegrityProof D)
    → Option String
    → Option (Inspector D F)
unfolding is_match latency_stats
integrity_inspector f share none symbol = none
integrity_inspector f share (some p) symbol = some (inspect f share symbol p)

-- The newest thirty, the newest first.
unfoldable pub event_log : List AggregatedEvent → List (Time × String × List Arg × Color)
unfolding to_color
event_log events =
    map (λ e. (e.timestamp, e.template, e.args, to_color e.color)) (take 30 (reverse events))

-- The symbols with the mark "▶".
abbrev pub marked : ℕ → ℕ → List String → List (Bool × String)
marked selected i [] = []
marked selected i (s ∷ ss) = (i == selected, s) ∷ marked selected (suc i) ss

unfoldable pub symbol_selector : List String → ℕ → List (Bool × String)
symbol_selector symbols selected = marked selected 0 symbols
