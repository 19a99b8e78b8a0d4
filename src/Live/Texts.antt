-- ===== src/Live/Texts.antt =====
-- crates/blackbox-ws/src/client.rs and crates/blackbox-server/src/main.rs: what the texts that a
-- connection hears say of a book.
use k_blackbox.Base.{
  ℕ, ◌≡◌, refl, ap, sym, ◌∙◌, List, [], ◌∷◌, ◌++◌, Bool-cases, inl, inr, Bool, true, false, Option,
  some, String, str_eq, if◌then◌else◌, arith,
}
use k_blackbox.Decimal.{Decimal}
use k_blackbox.Types.{BookData}
use k_blackbox.Orderbook.{Orderbook, apply_snapshot, truncate}
use k_blackbox.Orderbook
use k_blackbox.Parser.{
  ParsedFrame, WsFrame, ack, book, instrument, status, heartbeat, ok, err, parse_frame,
}
use k_blackbox.Parser
use k_blackbox.Client.Decode.{decode_side}
use k_blackbox.Client.Connection.{
  Wire, WsEvent, Output, event, subscribe_to, send_ping, text, close, ping_pong, other, Arrival,
  message, read_error, read_end, ping_closed, ping_due, Turn, WsClient, Connection, Flow, go, ended,
  failed, Did, on_pairs, on_instrument, book_event, book_events, on_frame, on_text, on_message,
  on_arrival, turn, continue, read_loop, run_connected, connect_and_run, is_rate_limit,
}
use k_blackbox.Client.Forwarded.{frames, frames-append, on_frame-frames}
use k_blackbox.Processor.Books.{update_old, book_step, book_after}
use k_blackbox.Live.{Attempt, events}

module _ {D F N : Type 0} ⦃d : Decimal D⦄ (w : Wire D F N) (depth : ℕ) (symbol : String) where
  -- What one entry of a book message says of the book of `symbol`.
  abbrev pub data_step : String → BookData N → Option (Orderbook D) → Option (Orderbook D)
  data_step msg_type b o =
      let bids = decode_side w.parser w.number_text b.bids in
      let asks = decode_side w.parser w.number_text b.asks in
      if str_eq b.symbol symbol
      then (if str_eq msg_type "snapshot"
          then some (truncate depth (apply_snapshot Orderbook.new bids asks))
          else update_old depth bids asks o)
      else o

  abbrev pub data_steps : String → List (BookData N) → Option (Orderbook D) → Option (Orderbook D)
  data_steps msg_type [] o = o
  data_steps msg_type (b ∷ bs) o = data_steps msg_type bs (data_step msg_type b o)

  -- Only a book message says anything.
  abbrev pub frame_step : ParsedFrame N → Option (Orderbook D) → Option (Orderbook D)
  frame_step (ok (book msg)) o = data_steps msg.msg_type msg.content o
  frame_step (ok (instrument msg)) o = o
  frame_step (ok (status msg)) o = o
  frame_step (ok (heartbeat msg)) o = o
  frame_step (ok (Parser.ping msg)) o = o
  frame_step (ok (ack a)) o = o
  frame_step (err e) o = o

  -- The book of `symbol` after so many texts.
  unfoldable pub texts_after : List String → Option (Orderbook D) → Option (Orderbook D)
  texts_after [] o = o
  texts_after (t ∷ ts) o = texts_after ts (frame_step (parse_frame w.messages t) o)

  pub book_after-append :
      (es later : List (WsEvent D)) (o : Option (Orderbook D))
      → book_after depth symbol (es ++ later) o
        ≡ book_after depth symbol later (book_after depth symbol es o)
  unfolding book_after
  book_after-append [] later o = refl
  book_after-append (e ∷ es) later o = book_after-append es later (book_step depth symbol e o)

  pub texts_after-append :
      (ts later : List String) (o : Option (Orderbook D))
      → texts_after (ts ++ later) o ≡ texts_after later (texts_after ts o)
  unfolding texts_after
  texts_after-append [] later o = refl
  texts_after-append (t ∷ ts) later o =
      texts_after-append ts later (frame_step (parse_frame w.messages t) o)

  events-append : (os later : List (Output D N)) → events (os ++ later) ≡ events os ++ events later
  events-append [] later = refl
  events-append (event e ∷ os) later = ap (λ r. e ∷ r) (events-append os later)
  events-append (subscribe_to v ∷ os) later = events-append os later
  events-append (send_ping v ∷ os) later = events-append os later

  -- The events among the outputs make of a book what the frames among them say.
  abbrev pub Tells : List (Output D N) → Type 0
  Tells os =
      (o : Option (Orderbook D)) → book_after depth symbol (events os) o ≡ texts_after (frames os) o

  Tells-append : (os later : List (Output D N)) → Tells os → Tells later → Tells (os ++ later)
  Tells-append os later h k o =
      ap (λ es. book_after depth symbol es o) (events-append os later)
      ∙ book_after-append (events os) (events later) o
      ∙ ap (book_after depth symbol (events later)) (h o)
      ∙ k (texts_after (frames os) o)
      ∙ sym (texts_after-append (frames os) (frames later) o)
      ∙ ap (λ ts. texts_after ts o) (sym (frames-append os later))

  module _ (client : WsClient) where
    book_event-step :
        (msg_type : String) (b : BookData N) (o : Option (Orderbook D))
        → book_step depth symbol (book_event w client msg_type b) o ≡ data_step msg_type b o
    unfolding book_event
    book_event-step msg_type b o = elim (Bool-cases (str_eq msg_type "snapshot")) [
      | inl e ↦ rw e refl
      | inr e ↦ rw e refl
    ]

    book_events-steps :
        (msg_type : String) (bs : List (BookData N)) (o : Option (Orderbook D))
        → book_after depth symbol (events (book_events w client msg_type bs)) o
          ≡ data_steps msg_type bs o
    unfolding book_events book_event book_after
    book_events-steps msg_type [] o = refl
    book_events-steps msg_type (b ∷ bs) o =
        book_events-steps msg_type bs (book_step depth symbol (book_event w client msg_type b) o)
        ∙ ap (data_steps msg_type bs) (book_event-step msg_type b o)

    on_frame-step :
        (accepted : Bool) (f : ParsedFrame N) (c : Connection D) (o : Option (Orderbook D))
        → book_after depth symbol (events (on_frame w client accepted f c).0) o ≡ frame_step f o
    unfolding on_frame on_instrument on_pairs book_after
    on_frame-step accepted (err e) c o = refl
    on_frame-step accepted (ok (instrument msg)) c o = ground arith
    on_frame-step accepted (ok (book msg)) c o = book_events-steps msg.msg_type msg.content o
    on_frame-step accepted (ok (heartbeat m)) c o = refl
    on_frame-step accepted (ok (Parser.ping m)) c o = refl
    on_frame-step accepted (ok (status m)) c o = refl
    on_frame-step accepted (ok (ack a)) c o = ground arith

    on_text-Tells :
        (accepted : Bool) (t : String) (c : Connection D) → Tells (on_text w client accepted t c).0
    unfolding on_text texts_after book_after
    on_text-Tells accepted t c o = elim (Bool-cases (is_rate_limit t)) [
      | inl e ↦ rw e refl
      | inr e ↦ rw e (
          on_frame-step accepted (parse_frame w.messages t) c o
          ∙ ap (λ ts. texts_after ts (frame_step (parse_frame w.messages t) o))
              (sym (on_frame-frames w client accepted (parse_frame w.messages t) c)))
    ]

    turn-Tells : (t : Turn) (c : Connection D) → Tells (turn w client t c).0
    unfolding turn on_arrival on_message book_after texts_after
    turn-Tells t c = by_arrival t.arrival
      where
        by_arrival : (a : Arrival) → Tells (on_arrival w client t.accepted t.now a c).0
        by_arrival (message (text m)) =
            on_text-Tells t.accepted m (record c { last_activity = t.now })
        by_arrival (message close) = λ o. refl
        by_arrival (message ping_pong) = λ o. refl
        by_arrival (message other) = λ o. refl
        by_arrival (ping_due sent) = λ o. refl
        by_arrival ping_closed = λ o. refl
        by_arrival read_error = λ o. refl
        by_arrival read_end = λ o. refl

    Tells-continue :
        (rest : Connection D → Did D N) (flow : Flow D)
        → ((c : Connection D) → Tells (rest c).0)
        → Tells (continue rest flow).0
    unfolding book_after texts_after
    Tells-continue rest (go c) h = h c
    Tells-continue rest ended h = λ o. refl
    Tells-continue rest failed h = λ o. refl

    read_loop-Tells : (ts : List Turn) (c : Connection D) → Tells (read_loop w client ts c).0
    unfolding read_loop book_after texts_after
    read_loop-Tells [] c = λ o. refl
    read_loop-Tells (t ∷ ts) c =
        let (os, flow) = turn w client t c in
        Tells-append os (continue (read_loop w client ts) flow).0 (turn-Tells t c)
          (Tells-continue (read_loop w client ts) flow (read_loop-Tells ts))

    pub connect_and_run-Tells :
        (a : Attempt) → Tells (connect_and_run w client a.reached a.accepted a.now a.turns).0
    unfolding connect_and_run run_connected book_after texts_after
    connect_and_run-Tells a = by_cases a.reached a.accepted
      where
        by_cases :
            (reached accepted : Bool)
            → Tells (connect_and_run w client reached accepted a.now a.turns).0
        by_cases false accepted = λ o. refl
        by_cases true false = λ o. refl
        by_cases true true = read_loop-Tells a.turns _
