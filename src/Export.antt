-- ===== src/Export.antt =====
-- crates/blackbox-server/src/main.rs: `export_incident_for_symbol`, which gathers the bundle of an
-- incident from the shared state.
use k_blackbox.Base.{ℕ, List, Option, none, some, String}
use k_blackbox.Decimal.{Decimal, Text, Level}
use k_blackbox.Words.{Time, Float}
use k_blackbox.Json.{Value, null, string, number, array, object, nil, cons, end, field}
use k_blackbox.DashMap.{get}
use k_blackbox.Orderbook.{Orderbook, best_bid, best_ask}
use k_blackbox.Health.{OverallHealth}
use k_blackbox.State.{AppState, get_depth}
use k_blackbox.State.Overall.{overall_health}
use k_blackbox.Incident.{Incident, BundleFile, bundle}

-- What `serde_json` makes of an unsigned number, of a printed number and of the health.
pub record Encoder (F N : Type 0) : Type 0 where
  pub of_u32 : ℕ → N
  pub text : Text → Value N
  pub health : OverallHealth F → Value N

module _ {D F N : Type 0} ⦃d : Decimal D⦄ (enc : Encoder F N) where
  -- A pair of texts, or null.
  abbrev pub level_json : Option (Level D) → Value N
  level_json none = null
  level_json (some (price, qty)) =
      array (cons (enc.text (d.to_string price)) (cons (enc.text (d.to_string qty)) nil))

  unfoldable pub book_top_json : Orderbook D → Value N
  unfolding best_bid best_ask
  book_top_json book = object (
      field "best_bid" (level_json (best_bid book))
        (field "best_ask" (level_json (best_ask book)) end))

  abbrev pub book_top_of : Option (Orderbook D) → Option (Value N)
  book_top_of none = none
  book_top_of (some book) = some (book_top_json book)

  -- The files of the bundle. The health is read at `now`.
  unfoldable pub export_incident_for_symbol :
      Float F → Time → Incident N → String → AppState D F → List (String × BundleFile D N)
  export_incident_for_symbol f now incident symbol s =
      bundle incident
        (object (
          field "symbol" (string symbol)
            (field "depth" (number (enc.of_u32 (get_depth symbol s))) end)))
        (enc.health (overall_health f now s)) (get symbol s.instruments)
        (book_top_of (get symbol s.orderbooks)) s.last_frames incident.timestamp
