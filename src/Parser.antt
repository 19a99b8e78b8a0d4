-- ===== src/Parser.antt =====
-- crates/blackbox-ws/src/parser.rs: which message a frame is. The derived deserializers of serde are
-- a parameter; a text that is not JSON, a value that does not fit and a channel that is not known are
-- errors.
pub mod Dispatch
use k_blackbox.Base.{Bool, true, false, ◌||◌, Option, none, some, String, str_eq, if◌then◌else◌}
use k_blackbox.Json.{Value, get, as_str, ◌>>=◌}
use k_blackbox.Types.{
  WsAck, BookMessage, InstrumentMessage, StatusMessage, HeartbeatMessage, PingMessage,
}

pub data WsFrame (N : Type 0) : Type 0 where
  ack : WsAck → WsFrame N
  book : BookMessage N → WsFrame N
  instrument : InstrumentMessage → WsFrame N
  status : StatusMessage → WsFrame N
  heartbeat : HeartbeatMessage → WsFrame N
  ping : PingMessage N → WsFrame N

pub data FrameError : Type 0 where
  not_json : FrameError
  -- A message of a known kind that does not have its fields.
  malformed : FrameError
  unknown_channel : String → FrameError
  missing_channel : FrameError

pub data ParsedFrame (N : Type 0) : Type 0 where
  ok : WsFrame N → ParsedFrame N
  err : FrameError → ParsedFrame N

pub record Deserializers (N : Type 0) : Type 0 where
  pub from_str : String → Option (Value N)
  pub to_ack : Value N → Option WsAck
  pub to_book : Value N → Option (BookMessage N)
  pub to_instrument : Value N → Option InstrumentMessage
  pub to_status : Value N → Option StatusMessage
  pub to_heartbeat : Value N → Option HeartbeatMessage
  pub to_ping : Value N → Option (PingMessage N)

module _ {N : Type 0} (s : Deserializers N) where
  abbrev pub is_some : {A : Type 0} → Option A → Bool
  is_some none = false
  is_some (some a) = true

  -- `let msg = serde_json::from_value(json)?; Ok(WsFrame::...(msg))`.
  abbrev pub as_frame : {A : Type 0} → (A → WsFrame N) → Option A → ParsedFrame N
  as_frame c none = err malformed
  as_frame c (some m) = ok (c m)

  -- A heartbeat that does not fit is taken for an empty one.
  abbrev pub heartbeat_or_empty : Option HeartbeatMessage → HeartbeatMessage
  heartbeat_or_empty (some m) = m
  heartbeat_or_empty none = record { msg_type = none; content = none }

  unfoldable pub by_channel : Value N → String → ParsedFrame N
  by_channel json channel =
      if str_eq channel "book"
      then as_frame book (s.to_book json)
      else if str_eq channel "instrument"
      then as_frame instrument (s.to_instrument json)
      else if str_eq channel "status"
      then as_frame status (s.to_status json)
      else if str_eq channel "heartbeat"
      then ok (heartbeat (heartbeat_or_empty (s.to_heartbeat json)))
      else if str_eq channel "ping"
      then as_frame ping (s.to_ping json)
      else err (unknown_channel channel)

  unfoldable pub is_ack : Value N → Bool
  is_ack json = is_some (get "method" json) || is_some (get "success" json)

  abbrev pub of_channel : Value N → Option String → ParsedFrame N
  of_channel json none = err missing_channel
  of_channel json (some channel) = by_channel json channel

  unfoldable pub parse_value : Value N → ParsedFrame N
  parse_value json =
      if is_ack json
      then as_frame ack (s.to_ack json)
      else of_channel json (get "channel" json >>= as_str)

  unfoldable pub parse_frame : String → ParsedFrame N
  parse_frame text = elim (s.from_str text) [ none ↦ err not_json | some json ↦ parse_value json ]
