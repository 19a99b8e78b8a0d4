-- ===== src/Http.antt =====
-- crates/blackbox-server/src/http.rs: the handlers of the HTTP interface. A response is a status and a
-- body; its encoding is a dependency's.
pub mod Top
use k_blackbox.Base.{ℕ, ◌≡◌, refl, List, [], ◌∷◌, map, Option, none, some, String, arith}
use k_blackbox.Decimal.{Decimal, Text, Level}
use k_blackbox.Words.{Time, Float}
use k_blackbox.Json.{Value, object, end, field, array, strings}
use k_blackbox.DashMap.{get, keys}
use k_blackbox.Orderbook.{Orderbook, best_bid, best_ask, spread, mid, bids_vec, asks_vec}
use k_blackbox.Health.{OverallHealth}
use k_blackbox.State.{AppState}
use k_blackbox.State.Overall.{overall_health}
use k_blackbox.Incident.{
  Incident, IncidentManager, manual_export, record_incident, BundleFile, bundle,
}
use k_blackbox.Export.{Encoder, book_top_of}

pub data Status : Type 0 where
  ok not_found : Status

pub record TopOfBook : Type 0 where
  pub symbol : String
  pub best_bid : Option (Text × Text)
  pub best_ask : Option (Text × Text)
  pub spread : Option Text
  pub mid : Option Text

pub record BookResponse : Type 0 where
  pub symbol : String
  pub bids : List (Text × Text)
  pub asks : List (Text × Text)

abbrev pub map_option : {A B : Type 0} → (A → B) → Option A → Option B
map_option f none = none
map_option f (some a) = some (f a)

abbrev pub first_or_unknown : List String → String
first_or_unknown [] = "unknown"
first_or_unknown (s ∷ ss) = s

module _ {D F : Type 0} where
  unfoldable pub health_handler : Float F → Time → AppState D F → OverallHealth F
  health_handler f now s = overall_health f now s

module _ {D : Type 0} ⦃d : Decimal D⦄ where
  abbrev pub level_text : Level D → Text × Text
  level_text (price, qty) = (d.to_string price, d.to_string qty)

  abbrev pub top_of : String → Option (Orderbook D) → Status × TopOfBook
  top_of symbol none = (
    not_found,
    record { symbol = symbol; best_bid = none; best_ask = none; spread = none; mid = none },
  )
  top_of symbol (some book) = (
    ok,
    record {
      symbol = symbol;
      best_bid = map_option level_text (best_bid book);
      best_ask = map_option level_text (best_ask book);
      spread = map_option d.to_string (spread book);
      mid = map_option d.to_string (mid book);
    },
  )

  abbrev pub book_of : String → Option ℕ → Option (Orderbook D) → Status × BookResponse
  book_of symbol limit none = (not_found, record { symbol = symbol; bids = []; asks = [] })
  book_of symbol limit (some book) = (
    ok,
    record {
      symbol = symbol;
      bids = map level_text (bids_vec book limit);
      asks = map level_text (asks_vec book limit);
    },
  )

module _ {D F : Type 0} ⦃d : Decimal D⦄ where
  unfoldable pub book_top_handler : String → AppState D F → Status × TopOfBook
  book_top_handler symbol s = top_of symbol (get symbol s.orderbooks)

  unfoldable pub book_handler : String → Option ℕ → AppState D F → Status × BookResponse
  book_handler symbol limit s = book_of symbol limit (get symbol s.orderbooks)

module _ {D F N : Type 0} ⦃d : Decimal D⦄ (enc : Encoder F N) where
  -- The incident that is recorded and the files of its bundle; `timestamp` is the JSON of the time.
  -- The archive that is sent is read back from the disk.
  unfoldable pub export_bug_handler :
      Float F
      → (ℕ → String → String)
      → Time
      → Time
      → Value N
      → AppState D F
      → IncidentManager N
      → List (String × BundleFile D N) × IncidentManager N
  export_bug_handler f format_id id_now now timestamp s manager =
      let (incident, manager') =
        record_incident format_id id_now now manual_export none (object end) manager in
      let symbol = first_or_unknown (keys s.health) in
      (
        bundle incident
            (object
              (field "symbols" (array (strings (keys s.health))) (field "timestamp" timestamp end)))
            (enc.health (overall_health f now s)) (get symbol s.instruments)
            (book_top_of enc (get symbol s.orderbooks)) s.last_frames incident.timestamp,
        manager',
      )

-- The answer to an export: the archive under the name of the incident, or why there is none.
pub data ExportReply (D N : Type 0) : Type 0 where
  archive : String → List (String × BundleFile D N) → ExportReply D N
  not_read : String → ExportReply D N
  not_exported : String → ExportReply D N

-- `exported` is the error of the export, and `read` that of reading the archive back, if any.
unfoldable pub export_reply :
    {D N : Type 0}
    → Option String
    → Option String
    → Incident N
    → List (String × BundleFile D N)
    → ExportReply D N
export_reply none none incident files = archive incident.id files
export_reply none (some e) incident files = not_read e
export_reply (some e) read incident files = not_exported e
