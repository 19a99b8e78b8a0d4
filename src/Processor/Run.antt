-- ===== src/Processor/Run.antt =====
-- crates/blackbox-server/src/main.rs: `process_ws_events`, the loop of the command `run`. It exports
-- an incident while it holds the map entries of the symbol, and a task that waits for an entry that
-- it holds itself waits for ever: the outcome `deadlock`.
pub mod Mismatch
pub mod Stops
pub mod Books
use k_blackbox.Base.{ℕ, List, [], ◌∷◌, Bool, true, false, Option, none, some, String, if◌then◌else◌}
use k_blackbox.Decimal.{Decimal, Level}
use k_blackbox.Words.{Time, Float}
use k_blackbox.Json.{Value, number, string, object, end, field}
use k_blackbox.DashMap.{get}
use k_blackbox.Types.{InstrumentInfo}
use k_blackbox.Orderbook.{Orderbook}
use k_blackbox.Checksum.{Hasher, verify_checksum}
use k_blackbox.Recorder.{Recorder}
use k_blackbox.State.{AppState}
use k_blackbox.Incident.{
  Incident, IncidentManager, checksum_mismatch, rate_limit, record_incident, BundleFile,
}
use k_blackbox.Export.{Encoder, export_incident_for_symbol}
use k_blackbox.Client.Connection.{
  WsEvent, connected, disconnected, rate_limit_exceeded, frame, error, instrument_snapshot,
  book_snapshot, book_update,
}
use k_blackbox.Processor.Defs.{
  Clock, snapshot_book, updated_book, store_book, store_instruments, store_frame, judge_health,
  record_with,
}

-- What the loop works on; `exported` are the bundles that it has handed to the archive.
pub record RunState (D F N : Type 0) : Type 0 where
  pub state : AppState D F
  pub manager : IncidentManager N
  pub recorder : Option Recorder
  pub exported : List (List (String × BundleFile D N))

pub data Outcome (S : Type 0) : Type 0 where
  next : S → Outcome S
  deadlock : Outcome S

-- The write guards that the task holds on the entries of a symbol.
pub record Held : Type 0 where
  pub health : Bool
  pub orderbooks : Bool

abbrev pub after_outcome : {S T : Type 0} → (S → Outcome T) → Outcome S → Outcome T
after_outcome k (next s) = k s
after_outcome k deadlock = deadlock

module _ {D F N : Type 0} where
  abbrev pub put_book : String → Orderbook D → RunState D F N → RunState D F N
  put_book symbol book r = record r { state = store_book symbol book r.state }

module _ {D F N : Type 0} ⦃d : Decimal D⦄ (f : Float F) (h : Hasher) (enc : Encoder F N)
    (format_id : ℕ → String → String) where
  -- The export reads every entry of `health` and then the book of the symbol.
  unfoldable pub export_under :
      Held → Time → Incident N → String → RunState D F N → Outcome (RunState D F N)
  export_under held now incident symbol r =
      if held.health
      then deadlock
      else if held.orderbooks
      then deadlock
      else next (record r {
        exported = export_incident_for_symbol enc f now incident symbol r.state ∷ r.exported;
      })

  -- The branch of a mismatch.
  unfoldable pub record_mismatch :
      Held → Clock → String → ℕ → RunState D F N → Outcome (RunState D F N)
  unfolding export_under
  record_mismatch held clock symbol expected r =
      let (incident, manager) =
        record_incident format_id clock.incident_id clock.incident checksum_mismatch (some symbol)
          (object (
            field "expected_checksum" (number (enc.of_u32 expected))
              (field "symbol" (string symbol) end)))
          r.manager in
      export_under held clock.exported incident symbol (record r { manager = manager })

  unfoldable pub judge :
      Held → Clock → String → ℕ → Bool → RunState D F N → Outcome (RunState D F N)
  unfolding record_mismatch
  judge held clock symbol expected is_valid r =
      let judged = record r { state = judge_health f clock is_valid symbol r.state } in
      if is_valid then next judged else record_mismatch held clock symbol expected judged

  abbrev pub verify_with :
      Held
      → Clock
      → String
      → Orderbook D
      → ℕ
      → Option (InstrumentInfo D)
      → RunState D F N
      → Outcome (RunState D F N)
  verify_with held clock symbol book expected none r = next r
  verify_with held clock symbol book expected (some inst) r =
      judge held clock symbol expected
        (verify_checksum h book expected inst.price_precision inst.qty_precision) r

  -- The check of a book that came with a checksum, where the instrument is known.
  abbrev pub verify_book :
      Held → Clock → String → Orderbook D → Option ℕ → RunState D F N → Outcome (RunState D F N)
  verify_book held clock symbol book none r = next r
  verify_book held clock symbol book (some expected) r =
      verify_with held clock symbol book expected (get symbol r.state.instruments) r

  -- The book of a snapshot is stored after the check; only the health entry is held.
  unfoldable pub on_snapshot :
      Clock
      → String
      → List (Level D)
      → List (Level D)
      → Option ℕ
      → RunState D F N
      → Outcome (RunState D F N)
  unfolding judge
  on_snapshot clock symbol bids asks checksum r =
      let book = snapshot_book symbol bids asks r.state in
      after_outcome (λ r. next (put_book symbol book r))
        (verify_book (record { health = true; orderbooks = false }) clock symbol book checksum r)

  -- An update changes the stored book in place, and holds its entry as well.
  abbrev pub update_book :
      Clock
      → String
      → List (Level D)
      → List (Level D)
      → Option ℕ
      → Option (Orderbook D)
      → RunState D F N
      → Outcome (RunState D F N)
  update_book clock symbol bids asks checksum none r = next r
  update_book clock symbol bids asks checksum (some old) r =
      let book = updated_book symbol bids asks old r.state in
      verify_book (record { health = true; orderbooks = true }) clock symbol book checksum
        (put_book symbol book r)

  unfoldable pub on_update :
      Clock
      → String
      → List (Level D)
      → List (Level D)
      → Option ℕ
      → RunState D F N
      → Outcome (RunState D F N)
  unfolding judge
  on_update clock symbol bids asks checksum r =
      update_book clock symbol bids asks checksum (get symbol r.state.orderbooks) r

  -- One turn of the loop. The cooldown of a minute only waits.
  unfoldable pub process_event : Clock → WsEvent D → RunState D F N → Outcome (RunState D F N)
  unfolding on_snapshot on_update
  process_event clock connected r = next r
  process_event clock disconnected r = next r
  process_event clock (frame raw) r = next (record r {
    recorder = record_with clock.recorded raw r.recorder;
    state = store_frame clock.stored raw r.state;
  })
  process_event clock (instrument_snapshot infos) r =
      next (record r { state = store_instruments infos r.state })
  process_event clock (book_snapshot symbol bids asks checksum) r =
      on_snapshot clock symbol bids asks checksum r
  process_event clock (book_update symbol bids asks checksum ts) r =
      on_update clock symbol bids asks checksum r
  process_event clock (error e) r = next r
  process_event clock rate_limit_exceeded r = next (record r {
    manager =
        (record_incident format_id clock.incident_id clock.incident rate_limit none (object end)
          r.manager).1;
  })

  -- The loop over the events that come.
  unfoldable pub process_ws_events :
      List (Clock × WsEvent D) → RunState D F N → Outcome (RunState D F N)
  unfolding process_event
  process_ws_events [] r = next r
  process_ws_events ((clock, e) ∷ es) r =
      after_outcome (process_ws_events es) (process_event clock e r)
