-- ===== src/Parser/Dispatch.antt =====
-- crates/blackbox-ws/src/parser.rs: which texts are refused for their channel.
use k_blackbox.Base.{Bool, false, ◌||◌, Option, none, some, String, str_eq, ◌≡◌, ◌≢◌, ◌↔◌, arith}
use k_blackbox.Json.{Value, get, as_str, ◌>>=◌}
use k_blackbox.Parser.{
  Deserializers, WsFrame, ack, err, unknown_channel, as_frame, by_channel, is_ack, of_channel,
  parse_value, parse_frame,
}

-- The channels that have a message.
abbrev pub is_known : String → Bool
is_known c =
    str_eq c "book"
    || (str_eq c "instrument" || (str_eq c "status" || (str_eq c "heartbeat" || str_eq c "ping")))

module _ {N : Type 0} (s : Deserializers N) where
  by_channel_unknown :
      (json : Value N) (ch c : String)
      → (by_channel s json ch ≡ err (unknown_channel c)) ↔ ((ch ≡ c) × (is_known ch ≡ false))
  unfolding by_channel
  by_channel_unknown json ch c = ground arith

  of_channel_unknown :
      (json : Value N) (o : Option String) (c : String)
      → (of_channel s json o ≡ err (unknown_channel c)) ↔ ((o ≡ some c) × (is_known c ≡ false))
  of_channel_unknown json none c = ground arith
  of_channel_unknown json (some ch) c = ground (arith, by_channel_unknown json ch c)

  as_frame_unknown :
      {A : Type 0} (k : A → WsFrame N) (o : Option A) (c : String)
      → as_frame s k o ≢ err (unknown_channel c)
  as_frame_unknown k none c = ground arith
  as_frame_unknown k (some a) c = ground arith

  value_unknown :
      (json : Value N) (c : String)
      → (parse_value s json ≡ err (unknown_channel c)) ↔ (
          (is_ack s json ≡ false)
          × ((get "channel" json >>= as_str) ≡ some c)
          × (is_known c ≡ false))
  unfolding parse_value
  value_unknown json c = ground (
    arith,
    of_channel_unknown json (get "channel" json >>= as_str) c,
    as_frame_unknown ack (s.to_ack json) c,
  )

  -- A JSON text is refused for its channel `c` exactly when it is no acknowledgement (it has neither
  -- the key `method` nor the key `success`), its key `channel` holds the text `c`, and `c` is none of
  -- the five known channels. No other failure gives that error.
  pub unknown_channel_iff :
      (text : String) (json : Value N) (c : String)
      → s.from_str text ≡ some json
      → (parse_frame s text ≡ err (unknown_channel c)) ↔ (
          (is_ack s json ≡ false)
          × ((get "channel" json >>= as_str) ≡ some c)
          × (is_known c ≡ false))
  unfolding parse_frame
  unknown_channel_iff text json c h = ground (arith, value_unknown json c)
