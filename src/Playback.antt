-- ===== src/Playback.antt =====
-- crates/blackbox-server/src/main.rs: `replay_recording_internal`, which plays a recording into the
-- logging loop. The answers of `next_frame` come as a list. What the loop sends is a list of events, and
-- what it does to the shared state itself is a state.
pub mod Gaps
pub mod Offline
pub mod Ends
pub mod Answers
use k_blackbox.Base.{
  ℕ, suc, List, [], ◌∷◌, ◌++◌, Bool, true, false, ◌||◌, Option, none, some, String, codes, str_eq,
  ltb, if◌then◌else◌,
}
use k_blackbox.DashMap.{Map, insert, contains_key}
use k_blackbox.Types.{InstrumentPair, InstrumentInfo, InstrumentMessage, BookMessage, BookData}
use k_blackbox.Parser.{ParsedFrame, ack, book, instrument, status, heartbeat, ok, err, parse_frame}
use k_blackbox.Parser
use k_blackbox.Client.Decode.{both_ok, add_instrument, decode_side}
use k_blackbox.Precision.{parse_decimal}
use k_blackbox.Words.{Time, Float}
use k_blackbox.Health
use k_blackbox.State
use k_blackbox.State.{AppState, push_event, record_started, record_stopped}
use k_blackbox.Client.Connection.{
  Wire, WsEvent, connected, frame, instrument_snapshot, book_snapshot, book_update,
}

abbrev pub is_in : List String → String → Bool
is_in [] s = false
is_in (x ∷ xs) s = str_eq x s || is_in xs s

-- `requested.is_empty() || requested.contains(symbol)`.
unfoldable pub is_wanted : List String → String → Bool
is_wanted [] s = true
is_wanted (x ∷ xs) s = is_in (x ∷ xs) s

module _ {D F : Type 0} (f : Float F) where
  -- A pair whose increments can be read gets a health entry if it has none.
  abbrev pub ensure_health : String → Option (D × D) → AppState D F → AppState D F
  ensure_health symbol none s = s
  ensure_health symbol (some increments) s =
      if contains_key symbol s.health
      then s
      else record s { health = insert symbol (Health.new f symbol) s.health }

module _ {D F N : Type 0} (f : Float F) (w : Wire D F N) (requested : List String) where
  abbrev pub increments : InstrumentPair → Option (D × D)
  increments pair =
      both_ok (parse_decimal w.parser (codes pair.price_increment))
        (parse_decimal w.parser (codes pair.qty_increment))

  -- The loop over the pairs: the instruments and the state.
  unfoldable pub wanted_pairs :
      List InstrumentPair
      → Map (InstrumentInfo D)
      → AppState D F
      → Map (InstrumentInfo D) × AppState D F
  unfolding is_wanted
  wanted_pairs [] m s = (m, s)
  wanted_pairs (pair ∷ pairs) m s =
      let wanted : Bool = is_wanted requested pair.symbol in
      wanted_pairs pairs (if wanted then add_instrument pair (increments pair) m else m)
        (if wanted then ensure_health f pair.symbol (increments pair) s else s)

  abbrev pub unless_empty : Map (InstrumentInfo D) → List (WsEvent D)
  unless_empty [] = []
  unless_empty (x ∷ m) = instrument_snapshot (x ∷ m) ∷ []

  unfoldable pub instrument_events :
      InstrumentMessage → AppState D F → List (WsEvent D) × AppState D F
  unfolding wanted_pairs
  instrument_events msg s =
      if str_eq msg.msg_type "snapshot"
      then (let (m, s') = wanted_pairs msg.content.pairs [] s in (unless_empty m, s'))
      else ([], s)

  unfoldable pub book_event : String → BookData N → WsEvent D
  book_event msg_type b =
      let bids = decode_side w.parser w.number_text b.bids in
      let asks = decode_side w.parser w.number_text b.asks in
      if str_eq msg_type "snapshot"
      then book_snapshot b.symbol bids asks b.checksum
      else book_update b.symbol bids asks b.checksum b.timestamp

  unfoldable pub wanted_books : String → List (BookData N) → List (WsEvent D)
  unfolding book_event is_wanted
  wanted_books msg_type [] = []
  wanted_books msg_type (b ∷ bs) =
      let rest = wanted_books msg_type bs in
      if is_wanted requested b.symbol then book_event msg_type b ∷ rest else rest

  unfoldable pub events_of : ParsedFrame N → AppState D F → List (WsEvent D) × AppState D F
  unfolding instrument_events wanted_books
  events_of (ok (instrument msg)) s = instrument_events msg s
  events_of (ok (book msg)) s = (wanted_books msg.msg_type msg.content, s)
  events_of (ok (heartbeat m)) s = ([], s)
  events_of (ok (Parser.ping m)) s = ([], s)
  events_of (ok (status m)) s = ([], s)
  events_of (ok (ack a)) s = ([], s)
  events_of (err e) s = ([], s)

  -- What is sent for a frame, and the state after it.
  unfoldable pub frame_events : String → AppState D F → List (WsEvent D) × AppState D F
  unfolding events_of
  frame_events text s =
      let (events, s') = events_of (parse_frame w.messages text) s in (frame text ∷ events, s')

  -- The loop; `misses` is `consecutive_none` and `stopped` the time at which it breaks off. The result
  -- has the events, whether the loop broke off, and the state.
  unfoldable pub play :
      Time → ℕ → List (Option String) → AppState D F → List (WsEvent D) × Bool × AppState D F
  unfolding frame_events push_event
  play stopped misses [] s = ([], false, s)
  play stopped misses (some text ∷ answers) s =
      let first = frame_events text s in
      let later = play stopped 0 answers first.1 in (first.0 ++ later.0, later.1, later.2)
  play stopped misses (none ∷ answers) s =
      let later = play stopped (suc misses) answers s in
      if ltb 100 (suc misses) then ([], true, push_event stopped record_stopped s) else later

  -- The events of the start, for the file `input`.
  unfoldable pub begin : Time → Time → String → AppState D F → AppState D F
  unfolding push_event
  begin started joined input s =
      push_event joined State.connected (push_event started (record_started input) s)

  unfoldable pub replay_recording_internal :
      Time
      → Time
      → Time
      → String
      → List (Option String)
      → AppState D F
      → List (WsEvent D) × Bool × AppState D F
  unfolding play begin
  replay_recording_internal started joined stopped input answers s =
      let played = play stopped 0 answers (begin started joined input s) in
      (connected ∷ played.0, played.1, played.2)
