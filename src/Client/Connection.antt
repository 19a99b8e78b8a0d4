-- ===== src/Client/Connection.antt =====
-- crates/blackbox-ws/src/client.rs: `connect_and_run`. What arrives is a list: frames, errors and
-- pings that are due, each with the readings of the clock. What the connection does is a list of
-- outputs: events to the processor and messages to the server.
use k_blackbox.Base.{
  ℕ, ◌-◌, List, [], ◌∷◌, ◌++◌, Bool, true, false, ◌||◌, ◌&&◌, Option, none, some, String, codes,
  str_eq, ltb, ◌==◌, if◌then◌else◌,
}
use k_blackbox.Decimal.{Text, Level}
use k_blackbox.Words.{Time}
use k_blackbox.Json.{Value}
use k_blackbox.DashMap.{Map}
use k_blackbox.Precision.{DecimalParser}
use k_blackbox.Types.{InstrumentInfo, InstrumentMessage, BookData}
use k_blackbox.Subscriptions.{subscribe_instrument, subscribe_book, ping}
use k_blackbox.Parser.{
  Deserializers, WsFrame, ack, book, instrument, status, heartbeat, ParsedFrame, ok, err,
  parse_frame,
}
use k_blackbox.Parser
use k_blackbox.Client.Decode.{add_pairs, decode_side}

pub data WsEvent (D : Type 0) : Type 0 where
  connected disconnected rate_limit_exceeded : WsEvent D
  frame error : String → WsEvent D
  instrument_snapshot : Map (InstrumentInfo D) → WsEvent D
  -- Symbol, bids, asks, checksum.
  book_snapshot : String → List (Level D) → List (Level D) → Option ℕ → WsEvent D
  -- Symbol, bids, asks, checksum, timestamp.
  book_update : String → List (Level D) → List (Level D) → Option ℕ → Option String → WsEvent D

pub data Output (D N : Type 0) : Type 0 where
  event : WsEvent D → Output D N
  subscribe_to : Value N → Output D N
  send_ping : Value N → Output D N

pub data Message : Type 0 where
  text : String → Message
  close ping_pong other : Message

-- What wakes the loop: a message, an error or the end of the stream, a ping that is due (whether the
-- server takes it), and the end of the ping task.
pub data Arrival : Type 0 where
  message : Message → Arrival
  read_error read_end ping_closed : Arrival
  ping_due : Bool → Arrival

-- One turn's inputs: what arrived, when, the time at the idle check, and whether the server takes a
-- subscription that the turn sends.
pub record Turn : Type 0 where
  pub arrival : Arrival
  pub now : Time
  pub checked : Time
  pub accepted : Bool

pub record WsClient : Type 0 where
  pub symbols : List String
  pub depth : ℕ
  pub ping_interval : Time

pub record Connection (D : Type 0) : Type 0 where
  pub instruments_received : Bool
  pub instruments : Map (InstrumentInfo D)
  pub last_activity : Time

-- How the handling of a turn ends: the loop goes on, `break` (`Ok(())`), or an error.
pub data Flow (D : Type 0) : Type 0 where
  go : Connection D → Flow D
  ended failed : Flow D

abbrev pub idle_timeout : ℕ
idle_timeout = 60000000000

abbrev pub starts_with : Text → Text → Bool
starts_with [] s = true
starts_with (c ∷ cs) [] = false
starts_with (c ∷ cs) (x ∷ s) = (c == x) && starts_with cs s

-- `s.contains(part)` of std.
unfoldable pub has_part : Text → Text → Bool
has_part part [] = starts_with part []
has_part part (x ∷ s) = starts_with part (x ∷ s) || has_part part s

unfoldable pub is_rate_limit : String → Bool
unfolding has_part
is_rate_limit t =
    has_part (codes "Exceeded msg rate") (codes t) || has_part (codes "rate limit") (codes t)

-- What a turn does and how it ends.
abbrev pub Did : Type 0 → Type 0 → Type 0
Did D N = List (Output D N) × Flow D

-- What the connection takes from its dependencies: the parser of decimals, the `to_string` of a JSON
-- number, the JSON of a u32, and the deserializers.
pub record Wire (D F N : Type 0) : Type 0 where
  pub parser : DecimalParser D F
  pub number_text : N → Text
  pub of_u32 : ℕ → N
  pub messages : Deserializers N

module _ {D : Type 0} where
  -- The check after each turn that goes on.
  abbrev pub idle_check : Time → Flow D → Flow D
  idle_check checked (go c) = if ltb idle_timeout (checked - c.last_activity) then ended else go c
  idle_check checked ended = ended
  idle_check checked failed = failed

module _ {D N : Type 0} where
  abbrev pub ack_events : Option String → List (Output D N)
  ack_events none = []
  ack_events (some e) = event (error e) ∷ []

  abbrev pub after : Output D N → Did D N → Did D N
  after o (os, flow) = (o ∷ os, flow)

  abbrev pub continue : (Connection D → Did D N) → Flow D → Did D N
  continue rest (go c) = rest c
  continue rest ended = ([], ended)
  continue rest failed = ([], failed)

module _ {D F N : Type 0} (w : Wire D F N) (client : WsClient) where
  -- The first snapshot is passed on, and the books are subscribed to.
  unfoldable pub on_pairs : Bool → Connection D → Did D N
  on_pairs accepted c = if c.instruments_received then ([], go c) else (
    event (instrument_snapshot c.instruments)
        ∷ subscribe_to (subscribe_book w.of_u32 client.symbols client.depth true)
        ∷ [],
    if accepted then go (record c { instruments_received = true }) else failed,
  )

  unfoldable pub on_instrument : Bool → InstrumentMessage → Connection D → Did D N
  unfolding on_pairs
  on_instrument accepted msg c =
      if str_eq msg.msg_type "snapshot"
      then on_pairs accepted (record c {
        instruments = add_pairs w.parser w.number_text msg.content.pairs c.instruments;
      })
      else ([], go c)

  unfoldable pub book_event : String → BookData N → WsEvent D
  book_event msg_type d =
      let bids = decode_side w.parser w.number_text d.bids in
      let asks = decode_side w.parser w.number_text d.asks in
      if str_eq msg_type "snapshot"
      then book_snapshot d.symbol bids asks d.checksum
      else book_update d.symbol bids asks d.checksum d.timestamp

  unfoldable pub book_events : String → List (BookData N) → List (Output D N)
  unfolding book_event
  book_events msg_type [] = []
  book_events msg_type (d ∷ ds) = event (book_event msg_type d) ∷ book_events msg_type ds

  unfoldable pub on_frame : Bool → ParsedFrame N → Connection D → Did D N
  unfolding on_instrument book_events
  on_frame accepted (err e) c = ([], go c)
  on_frame accepted (ok (instrument msg)) c = on_instrument accepted msg c
  on_frame accepted (ok (book msg)) c = (book_events msg.msg_type msg.content, go c)
  on_frame accepted (ok (heartbeat m)) c = ([], go c)
  on_frame accepted (ok (Parser.ping m)) c = ([], go c)
  on_frame accepted (ok (status m)) c = ([], go c)
  on_frame accepted (ok (ack a)) c = (ack_events a.error, go c)

  unfoldable pub on_text : Bool → String → Connection D → Did D N
  unfolding on_frame is_rate_limit
  on_text accepted t c =
      if is_rate_limit t
      then (event rate_limit_exceeded ∷ [], failed)
      else after (event (frame t)) (on_frame accepted (parse_frame w.messages t) c)

  unfoldable pub on_message : Bool → Message → Connection D → Did D N
  unfolding on_text
  on_message accepted (text t) c = on_text accepted t c
  on_message accepted close c = ([], ended)
  on_message accepted ping_pong c = ([], go c)
  on_message accepted other c = ([], go c)

  unfoldable pub on_arrival : Bool → Time → Arrival → Connection D → Did D N
  unfolding on_message
  on_arrival accepted now (message m) c = on_message accepted m (record c { last_activity = now })
  on_arrival accepted now read_error c = ([], ended)
  on_arrival accepted now read_end c = ([], ended)
  on_arrival accepted now (ping_due sent) c = (send_ping ping ∷ [], if sent then go c else ended)
  on_arrival accepted now ping_closed c = ([], ended)

  unfoldable pub turn : Turn → Connection D → Did D N
  unfolding on_arrival
  turn t c =
      let (os, flow) = on_arrival t.accepted t.now t.arrival c in (os, idle_check t.checked flow)

  -- The loop over the turns that come, and the outputs in their order.
  unfoldable pub read_loop : List Turn → Connection D → Did D N
  unfolding turn
  read_loop [] c = ([], go c)
  read_loop (t ∷ ts) c =
      let first = turn t c in
      let later = continue (read_loop ts) first.1 in (first.0 ++ later.0, later.1)

  -- A connection that was made: the event, the subscription to the instruments, and the loop.
  unfoldable pub run_connected : Bool → Time → List Turn → Did D N
  unfolding read_loop
  run_connected accepted now turns = after (event connected) (
      after (subscribe_to (subscribe_instrument w.of_u32 true)) (
        if accepted
        then read_loop turns
            (record { instruments_received = false; instruments = []; last_activity = now })
        else ([], failed)))

-- `connect_and_run`: a connection that is refused is an error.
unfoldable pub connect_and_run :
    {D F N : Type 0} → Wire D F N → WsClient → Bool → Bool → Time → List Turn → Did D N
unfolding run_connected
connect_and_run w client reached accepted now turns =
    if reached then run_connected w client accepted now turns else ([], failed)
