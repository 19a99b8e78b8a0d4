-- ===== src/Processor/Defs.antt =====
-- crates/blackbox-server/src/main.rs: the steps that both loops over the events take.
use k_blackbox.Base.{
  List, [], ◌∷◌, ◌++◌, Bool, true, Option, none, some, String, ltb, length, drop, if◌then◌else◌,
}
use k_blackbox.Decimal.{Decimal, Level}
use k_blackbox.Words.{Time, Float}
use k_blackbox.DashMap.{Map, get, insert}
use k_blackbox.DashMap
use k_blackbox.Types.{InstrumentInfo}
use k_blackbox.Orderbook.{Orderbook, apply_snapshot, apply_updates, truncate}
use k_blackbox.Orderbook
use k_blackbox.Health.{SymbolHealth, record_message, record_checksum_ok, record_checksum_fail}
use k_blackbox.Health
use k_blackbox.Recorder.{Recorder}
use k_blackbox.Recorder
use k_blackbox.State.{AppState, get_depth}

-- What one event reads of the clock, in the order of the source.
pub record Clock : Type 0 where
  pub recorded : Time
  pub stored : Time
  pub message : Time
  pub failed : Time
  pub incident_id : Time
  pub incident : Time
  pub exported : Time

module _ {D F : Type 0} ⦃d : Decimal D⦄ where
  -- The book of a snapshot, cut to the depth of its symbol.
  unfoldable pub snapshot_book :
      String → List (Level D) → List (Level D) → AppState D F → Orderbook D
  snapshot_book symbol bids asks s =
      truncate (get_depth symbol s) (apply_snapshot Orderbook.new bids asks)

  -- The book after an update, cut likewise.
  unfoldable pub updated_book :
      String → List (Level D) → List (Level D) → Orderbook D → AppState D F → Orderbook D
  updated_book symbol bids asks book s =
      truncate (get_depth symbol s) (apply_updates book bids asks)

-- The loop over the instruments of a snapshot.
unfoldable pub insert_all :
    {D : Type 0} → Map (InstrumentInfo D) → Map (InstrumentInfo D) → Map (InstrumentInfo D)
insert_all [] m = m
insert_all ((symbol, info) ∷ infos) m = insert_all infos (insert symbol info m)

module _ {D F : Type 0} where
  unfoldable pub store_book : String → Orderbook D → AppState D F → AppState D F
  store_book symbol book s = record s { orderbooks = insert symbol book s.orderbooks }

  unfoldable pub store_instruments : Map (InstrumentInfo D) → AppState D F → AppState D F
  unfolding insert_all
  store_instruments infos s = record s { instruments = insert_all infos s.instruments }

  -- `push`, and `remove(0)` if there are more than 1000.
  unfoldable pub store_frame : Time → String → AppState D F → AppState D F
  store_frame now frame s =
      let fs = s.last_frames ++ (now, frame) ∷ [] in
      record s { last_frames = if ltb 1000 (length fs) then drop 1 fs else fs }

  -- The entry of the symbol, made if it is missing, with the message and the verdict.
  unfoldable pub judge_health : Float F → Clock → Bool → String → AppState D F → AppState D F
  unfolding record_message record_checksum_ok record_checksum_fail
  judge_health f clock is_valid symbol s =
      let h = DashMap.get_or (Health.new f symbol) symbol s.health in
      let seen = record_message clock.message (record h { connected = true }) in
      let judged =
        if is_valid then record_checksum_ok seen else record_checksum_fail clock.failed seen in
      record s { health = insert symbol judged s.health }

-- The recorder of the command line, where there is one.
abbrev pub record_with : Time → String → Option Recorder → Option Recorder
record_with now frame none = none
record_with now frame (some r) = some (Recorder.record_frame now frame none r)
