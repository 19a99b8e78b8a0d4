-- ===== src/Client/Decode.antt =====
-- crates/blackbox-ws/src/client.rs: how instruments and levels of the book are read. A value whose
-- numbers cannot be read is skipped.
use k_blackbox.Base.{List, [], ◌∷◌, Option, none, some, codes}
use k_blackbox.Json.{Value, null, bool, number, string, array, object}
use k_blackbox.Decimal.{Text, Level}
use k_blackbox.DashMap.{Map, insert}
use k_blackbox.Precision.{DecimalParser, ParseResult, ok, err, parse_decimal}
use k_blackbox.Types.{InstrumentPair, InstrumentInfo, BookLevelData}

module _ {D : Type 0} where
  -- Both results of a pair of parses, or nothing.
  abbrev pub both_ok : ParseResult D → ParseResult D → Option (D × D)
  both_ok (ok a) (ok b) = some (a, b)
  both_ok (ok a) (err e) = none
  both_ok (err e) r = none

  abbrev pub add_instrument :
      InstrumentPair → Option (D × D) → Map (InstrumentInfo D) → Map (InstrumentInfo D)
  add_instrument pair none m = m
  add_instrument pair (some (price_inc, qty_inc)) m =
      insert pair.symbol
        (record {
          symbol = pair.symbol;
          price_precision = pair.price_precision;
          qty_precision = pair.qty_precision;
          price_increment = price_inc;
          qty_increment = qty_inc;
          status = pair.status;
        })
        m

  abbrev pub keep_level : Option (Level D) → List (Level D) → List (Level D)
  keep_level none ls = ls
  keep_level (some l) ls = l ∷ ls

-- `number_text` is the `to_string` of a JSON number.
module _ {D F N : Type 0} (p : DecimalParser D F) (number_text : N → Text) where
  unfoldable pub add_pair : InstrumentPair → Map (InstrumentInfo D) → Map (InstrumentInfo D)
  add_pair pair m =
      add_instrument pair
        (both_ok (parse_decimal p (codes pair.price_increment))
          (parse_decimal p (codes pair.qty_increment)))
        m

  -- The loop over the pairs of an instrument snapshot.
  unfoldable pub add_pairs : List InstrumentPair → Map (InstrumentInfo D) → Map (InstrumentInfo D)
  add_pairs [] m = m
  add_pairs (pair ∷ pairs) m = add_pairs pairs (add_pair pair m)

  unfoldable pub value_text : Value N → Option Text
  value_text (number n) = some (number_text n)
  value_text (string s) = some (codes s)
  value_text null = none
  value_text (bool b) = none
  value_text (array vs) = none
  value_text (object fs) = none

  abbrev pub parse_both : Option Text → Option Text → Option (Level D)
  parse_both (some price) (some qty) = both_ok (parse_decimal p price) (parse_decimal p qty)
  parse_both (some price) none = none
  parse_both none qty = none

  unfoldable pub decode_level : BookLevelData N → Option (Level D)
  unfolding value_text
  decode_level level = parse_both (value_text level.price) (value_text level.qty)

  -- The loop over the levels of one side, and a side that may be missing.
  unfoldable pub decode_levels : List (BookLevelData N) → List (Level D)
  decode_levels [] = []
  decode_levels (level ∷ levels) = keep_level (decode_level level) (decode_levels levels)

  unfoldable pub decode_side : Option (List (BookLevelData N)) → List (Level D)
  unfolding decode_levels
  decode_side none = []
  decode_side (some levels) = decode_levels levels
