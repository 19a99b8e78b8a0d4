-- ===== src/Tests/Connections.antt =====
-- The theorems on the parser, the connection and the options, at concrete inputs.
use k_blackbox.Base.{
  ℕ, ◌+◌, ◌*◌, ◌^◌, ◌≤◌, ◌<◌, ◌≡◌, ◌↔◌, refl, ◌⊎◌, inr, inl, List, [], ◌∷◌, ◌++◌, All, min,
  replicate, true, false, Option, none, some, String, arith,
}
use k_blackbox.Decimal.{Text}
use k_blackbox.Json.{Value, string, object, field, end, get, as_str, ◌>>=◌}
use k_blackbox.Parser.{Deserializers, err, unknown_channel, is_ack, parse_frame}
use k_blackbox.Parser.Dispatch.{is_known, unknown_channel_iff}
use k_blackbox.Client.Connection.{
  Wire, WsClient, connected, event, instrument_snapshot, subscribe_to, Turn, message, ping_due,
  text, Connection, run_connected, read_loop,
}
use k_blackbox.Client.Decode.{add_pairs}
use k_blackbox.Client.Handshake.{handshake, Reads}
use k_blackbox.Client.Once.{handshake-run_connected}
use k_blackbox.Client.Forwarded.{Forwarded, frames, texts, read_loop-Forwarded}
use k_blackbox.Client.Backoff.{Reconnect, start, reconnect, run, delays-in_range, backoff_doubles}
use k_blackbox.Playback.{begin, replay_recording_internal}
use k_blackbox.State.{AppState, new, push_event, record_stopped}
use k_blackbox.Playback.Gaps.{all_events, replay_cut}
use k_blackbox.Types.{InstrumentMessage}
use k_blackbox.Subscriptions.{normalize_depth, subscribe_book, subscribe_instrument}
use k_blackbox.Subscriptions.Depths.{IsSupported, normalize_depth-least}
use k_blackbox.Cli.{parse_duration, parse_u64, digits}
use k_blackbox.Tests.Values.{Fixed, fixed_decimal, thousandths, parser}

abbrev trade : Value ℕ
trade = object (field "channel" (string "trade") end)

-- Every text is read as a trade, which no channel of the program is.
abbrev deserializers : Deserializers ℕ
deserializers = record {
  from_str = λ s. some trade;
  to_ack = λ v. none;
  to_book = λ v. some (record { msg_type = "snapshot"; content = [] });
  to_instrument = λ v. none;
  to_status = λ v. none;
  to_heartbeat = λ v. none;
  to_ping = λ v. none;
}

unknown_channel_iff_example :
    (parse_frame deserializers "trade" ≡ err (unknown_channel "trade")) ↔ (
      (is_ack deserializers trade ≡ false)
      × ((get "channel" trade >>= as_str) ≡ some "trade")
      × (is_known "trade" ≡ false))
unknown_channel_iff_example = unknown_channel_iff deserializers "trade" trade "trade" refl

abbrev wire : Wire Fixed ℕ ℕ
wire = record {
  parser = parser;
  number_text = λ n. b'1' ∷ [];
  of_u32 = λ n. n;
  messages = deserializers;
}

abbrev client : WsClient
client = record { symbols = "BTC/USD" ∷ []; depth = 10; ping_interval = 30000000000 }

abbrev turns : List Turn
turns =
    record { arrival = message (text "one"); now = 1; checked = 2; accepted = true }
    ∷ record { arrival = ping_due true; now = 3; checked = 4; accepted = true }
    ∷ record { arrival = message (text "two"); now = 5; checked = 6; accepted = true }
    ∷ []

-- Every text is read as a snapshot of no instruments.
abbrev instruments_wire : Wire Fixed ℕ ℕ
instruments_wire = record wire {
  messages = record deserializers {
    from_str = λ s. some (object (field "channel" (string "instrument") end));
    to_instrument = λ v. some (record { msg_type = "snapshot"; content = record { pairs = [] } });
  };
}

handshake-run_connected_example :
    let hs = handshake (run_connected instruments_wire client true 0 turns).0 in
    let instruments = subscribe_to (subscribe_instrument instruments_wire.of_u32 true) in
    (hs ≡ instruments ∷ [])
    ⊎ ((msg : InstrumentMessage) × Reads instruments_wire client (texts turns) msg
        × (msg.msg_type ≡ "snapshot")
        × (hs
            ≡ instruments
              ∷ event (
                  instrument_snapshot
                    (add_pairs parser instruments_wire.number_text msg.content.pairs []))
              ∷ subscribe_to
                  (subscribe_book instruments_wire.of_u32 client.symbols client.depth true)
              ∷ []))
handshake-run_connected_example = handshake-run_connected instruments_wire client true 0 turns

abbrev fresh : Connection Fixed
fresh = record { instruments_received = false; instruments = []; last_activity = 0 }

read_loop-Forwarded_example :
    Forwarded
      (read_loop wire client turns fresh).1
      (frames (read_loop wire client turns fresh).0)
      (texts turns)
read_loop-Forwarded_example = read_loop-Forwarded wire client turns fresh

delays-in_range_example :
    All (λ (d : ℕ). (1000 ≤ d) × (d < 301000)) (run (true ∷ false ∷ false ∷ []) (start 12345)).0
delays-in_range_example = delays-in_range (true ∷ false ∷ false ∷ []) 12345

-- A good connection and three failures: the next failure sleeps sixteen seconds and the jitter.
abbrev after_failures : Reconnect
after_failures = (run (true ∷ replicate 3 false) (start 12345)).1

backoff_doubles_example :
    (min (1000 * 2 ^ (1 + 3)) 300000 ≤ (reconnect false after_failures).0)
    × ((reconnect false after_failures).0 < min (1000 * 2 ^ (1 + 3)) 300000 + 1000)
    × (1000 ≤ (reconnect true after_failures).0)
    × ((reconnect true after_failures).0 < 2000)
backoff_doubles_example = backoff_doubles 3 (start 12345)

abbrev answers : List (Option String)
answers = some "one" ∷ none ∷ none ∷ some "two" ∷ []

-- The state when the recording `in` has been opened.
abbrev opened : AppState Fixed ℕ
opened = begin thousandths wire [] 1 2 "in" (new 0)

replay_cut_example :
    let all = all_events thousandths wire [] answers opened in
    replay_recording_internal thousandths wire [] 1 2 3 "in"
      (answers ++ (replicate 101 none ++ some "lost" ∷ []))
      (new 0)
    ≡ (connected ∷ all.0, true, push_event 3 record_stopped all.1)
replay_cut_example =
    replay_cut thousandths wire [] 1 2 3 "in" 101 answers (some "lost" ∷ []) (new 0) (omega arith)
      refl

normalize_depth-least_example :
    IsSupported (normalize_depth 30) × (30 ≤ normalize_depth 30) × (normalize_depth 30 ≤ 500)
normalize_depth-least_example =
    normalize_depth-least 30 500 (inr (inr (inr (inl refl)))) (omega arith)

abbrev ninety : Text
ninety = b'9' ∷ b'0' ∷ []

ninety_minutes : parse_duration (ninety ++ b'm' ∷ []) ≡ some 5400
unfolding parse_duration parse_u64 digits
ninety_minutes = refl
