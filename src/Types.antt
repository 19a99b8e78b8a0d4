-- ===== src/Types.antt =====
-- crates/blackbox-core/src/types.rs: what Kraken's messages hold, the instruments, and the rules of
-- replay. A field that the source calls `data` is `content` here. The types are generic in `D`, a
-- decimal, in `F`, a float, and in `N`, a JSON number.
use k_blackbox.Base.{ℕ, List, Bool, Option, none, some, String}
use k_blackbox.Words.{Time}
use k_blackbox.Json.{Value, null, bool, number, string, array, object}

pub record AckResult : Type 0 where
  pub channel : Option String
  pub req_id : Option ℕ

pub record WsAck : Type 0 where
  pub method : String
  pub success : Option Bool
  pub result : Option AckResult
  pub time_in : Option ℕ
  pub time_out : Option ℕ
  pub req_id : Option ℕ
  pub error : Option String

pub record BookLevelData (N : Type 0) : Type 0 where
  pub price : Value N
  pub qty : Value N

pub record BookData (N : Type 0) : Type 0 where
  pub symbol : String
  pub bids : Option (List (BookLevelData N))
  pub asks : Option (List (BookLevelData N))
  pub checksum : Option ℕ
  pub timestamp : Option String

pub record BookMessage (N : Type 0) : Type 0 where
  pub msg_type : String
  pub content : List (BookData N)

pub record InstrumentPair : Type 0 where
  pub symbol : String
  pub price_precision : ℕ
  pub qty_precision : ℕ
  pub price_increment : String
  pub qty_increment : String
  pub status : String

pub record InstrumentData : Type 0 where
  pub pairs : List InstrumentPair

pub record InstrumentMessage : Type 0 where
  pub msg_type : String
  pub content : InstrumentData

pub record StatusData : Type 0 where
  pub system : String
  pub status : String
  pub timestamp : String

pub record StatusMessage : Type 0 where
  pub msg_type : String
  pub content : StatusData

pub record HeartbeatData : Type 0 where
  pub timestamp : String

pub record HeartbeatMessage : Type 0 where
  pub msg_type : Option String
  pub content : Option HeartbeatData

pub record PingMessage (N : Type 0) : Type 0 where
  pub msg_type : String
  pub content : Option (Value N)

pub record InstrumentInfo (D : Type 0) : Type 0 where
  pub symbol : String
  pub price_precision : ℕ
  pub qty_precision : ℕ
  pub price_increment : D
  pub qty_increment : D
  pub status : String

pub record RecordedFrame : Type 0 where
  pub ts : Time
  pub raw_frame : String
  pub decoded_event : Option String

pub data ReplayMode (F : Type 0) : Type 0 where
  realtime : ReplayMode F
  speed : F → ReplayMode F
  as_fast : ReplayMode F

-- `I` is the type of `delta_ticks`, an i32.
pub data FaultType (I : Type 0) : Type 0 where
  drop reorder : FaultType I
  mutate_qty : I → FaultType I

pub data FaultRule (I : Type 0) : Type 0 where
  every : ℕ → FaultType I → FaultRule I
  once_at : ℕ → FaultType I → FaultRule I
  no_fault : FaultRule I

pub record ReplayConfig (F I : Type 0) : Type 0 where
  pub mode : ReplayMode F
  pub fault : FaultRule I

-- The field readers that are written by hand; nothing is an error. The readers that serde derives use
-- them, and are a parameter.
module _ {N : Type 0} where
  -- `as_u64` is that of a JSON number.
  unfoldable pub optional_timestamp : (N → Option ℕ) → Value N → Option (Option ℕ)
  optional_timestamp as_u64 (number n) = elim (as_u64 n) [ none ↦ none | some t ↦ some (some t) ]
  optional_timestamp as_u64 (string s) = some none
  optional_timestamp as_u64 null = some none
  optional_timestamp as_u64 (bool b) = some none
  optional_timestamp as_u64 (array vs) = some none
  optional_timestamp as_u64 (object fs) = some none

  -- `text` is the `to_string` of a JSON number.
  unfoldable pub decimal_string : (N → String) → Value N → Option String
  decimal_string text (number n) = some (text n)
  decimal_string text (string s) = some s
  decimal_string text null = none
  decimal_string text (bool b) = none
  decimal_string text (array vs) = none
  decimal_string text (object fs) = none
