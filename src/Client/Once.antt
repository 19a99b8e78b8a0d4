-- ===== src/Client/Once.antt =====
-- crates/blackbox-ws/src/client.rs: the instrument snapshot that a connection passes on, and what it
-- subscribes to.
use k_blackbox.Base.{
  ◌≡◌, refl, ap, Bool-cases, eq_iff, ltb, ◌-◌, ◌⊎◌, inl, inr, List, [], ◌∷◌, Bool, true, false,
  Option, none, some, String, str_eq, if◌then◌else◌, arith,
}
use k_blackbox.Words.{Time}
use k_blackbox.DashMap.{Map}
use k_blackbox.Types.{BookData, InstrumentInfo, InstrumentMessage}
use k_blackbox.Subscriptions.{subscribe_book, subscribe_instrument, ping}
use k_blackbox.Parser.{ParsedFrame, ack, book, instrument, status, heartbeat, ok, err, parse_frame}
use k_blackbox.Parser
use k_blackbox.Client.Decode.{add_pairs}
use k_blackbox.Client.Forwarded.{text_of, texts}
use k_blackbox.Client.Handshake.{
  handshake, books_after, Reads, Passed, Leads, Bare, IsBare, Fits, Once, Once-continue, Once-stay,
}
use k_blackbox.Client.Connection.{
  Wire, rate_limit_exceeded, instrument_snapshot, Output, event, subscribe_to, send_ping, text,
  close, ping_pong, other, Arrival, message, read_error, read_end, ping_closed, ping_due, Turn,
  WsClient, Connection, Flow, go, ended, failed, Did, on_pairs, on_instrument, book_event,
  book_events, on_frame, on_text, on_message, on_arrival, is_rate_limit, idle_check, idle_timeout,
  turn, read_loop, run_connected, ack_events,
}

module _ {D F N : Type 0} (w : Wire D F N) (client : WsClient) where
  book_events-handshake :
      (msg_type : String) (ds : List (BookData N))
      → handshake {N = N} (book_events w client msg_type ds) ≡ []
  unfolding book_events book_event handshake
  book_events-handshake msg_type [] = refl
  book_events-handshake msg_type (d ∷ ds) = ground (arith, book_events-handshake msg_type ds)

  on_pairs-Leads :
      (t : String) (msg : InstrumentMessage) (b : Bool) (m : Map (InstrumentInfo D))
      (c : Connection D) (f : Flow D)
      → parse_frame w.messages t ≡ ok (instrument msg)
      → msg.msg_type ≡ "snapshot"
      → Bare b m
      → Leads w client
          (t ∷ [])
          b
          (handshake
            (if◌then◌else◌ {A = Did D N} b
              ([], go c)
              (books_after w client (add_pairs w.parser w.number_text msg.content.pairs m), f)).0)
          true
  unfolding handshake
  on_pairs-Leads t msg true m c f e kind bare = (refl, refl)
  on_pairs-Leads t msg false m c f e kind bare = (
    msg,
    inl e,
    kind,
    ap (λ m. books_after w client (add_pairs w.parser w.number_text msg.content.pairs m)) bare,
  )

  on_instrument-Once :
      (accepted : Bool) (t : String) (msg : InstrumentMessage) (c : Connection D)
      → parse_frame w.messages t ≡ ok (instrument msg)
      → IsBare c
      → Once w client (t ∷ []) c (on_instrument w client accepted msg c)
  unfolding on_instrument on_pairs handshake
  on_instrument-Once accepted t msg c e bare = elim (Bool-cases (str_eq msg.msg_type "snapshot")) [
    | inl h ↦
        let kind : msg.msg_type ≡ "snapshot" = (eq_iff msg.msg_type "snapshot").0 h in
        rw h (
          true,
          on_pairs-Leads t msg c.instruments_received c.instruments _ _ e kind bare,
          ground arith,
        )
    | inr h ↦ rw h (Once-stay w client (t ∷ []) c [] (go c) refl (refl, bare))
  ]

  ack_events-handshake : (e : Option String) → handshake (ack_events {D = D} {N = N} e) ≡ []
  unfolding handshake
  ack_events-handshake none = refl
  ack_events-handshake (some e) = refl

  on_frame-Once :
      (accepted : Bool) (t : String) (f : ParsedFrame N) (c : Connection D)
      → parse_frame w.messages t ≡ f
      → IsBare c
      → Once w client (t ∷ []) c (on_frame w client accepted f c)
  unfolding on_frame handshake
  on_frame-Once accepted t (err e) c h b = Once-stay w client (t ∷ []) c [] (go c) refl (refl, b)
  on_frame-Once accepted t (ok (instrument msg)) c h b = on_instrument-Once accepted t msg c h b
  on_frame-Once accepted t (ok (book msg)) c h b =
      Once-stay w client (t ∷ []) c (book_events w client msg.msg_type msg.content) (go c)
        (book_events-handshake msg.msg_type msg.content) (refl, b)
  on_frame-Once accepted t (ok (heartbeat m)) c h b =
      Once-stay w client (t ∷ []) c [] (go c) refl (refl, b)
  on_frame-Once accepted t (ok (Parser.ping m)) c h b =
      Once-stay w client (t ∷ []) c [] (go c) refl (refl, b)
  on_frame-Once accepted t (ok (status m)) c h b =
      Once-stay w client (t ∷ []) c [] (go c) refl (refl, b)
  on_frame-Once accepted t (ok (ack a)) c h b =
      Once-stay w client (t ∷ []) c (ack_events a.error) (go c) (ack_events-handshake a.error)
        (refl, b)

  on_text-Once :
      (accepted : Bool) (t : String) (c : Connection D)
      → IsBare c
      → Once w client (if is_rate_limit t then [] else t ∷ []) c (on_text w client accepted t c)
  unfolding on_text handshake
  on_text-Once accepted t c b = elim (Bool-cases (is_rate_limit t)) [
    | inl h ↦ rw h (Once-stay w client [] c (event rate_limit_exceeded ∷ []) failed refl tt)
    | inr h ↦ rw h (on_frame-Once accepted t (parse_frame w.messages t) c refl b)
  ]

  on_arrival-Once :
      (t : Turn) (a : Arrival) (c : Connection D)
      → IsBare c
      → Once w client (text_of a) c (on_arrival w client t.accepted t.now a c)
  unfolding on_arrival on_message handshake
  on_arrival-Once t (message (text m)) c b =
      on_text-Once t.accepted m (record c { last_activity = t.now }) b
  on_arrival-Once t (message close) c b = Once-stay w client [] c [] ended refl tt
  on_arrival-Once t (message ping_pong) c b =
      Once-stay w client [] c [] (go (record c { last_activity = t.now })) refl (refl, b)
  on_arrival-Once t (message other) c b =
      Once-stay w client [] c [] (go (record c { last_activity = t.now })) refl (refl, b)
  on_arrival-Once t (ping_due true) c b =
      Once-stay w client [] c (send_ping ping ∷ []) (go c) refl (refl, b)
  on_arrival-Once t (ping_due false) c b =
      Once-stay w client [] c (send_ping ping ∷ []) ended refl tt
  on_arrival-Once t ping_closed c b = Once-stay w client [] c [] ended refl tt
  on_arrival-Once t read_error c b = Once-stay w client [] c [] ended refl tt
  on_arrival-Once t read_end c b = Once-stay w client [] c [] ended refl tt

  idle_check-Fits :
      (b : Bool) (checked : Time) (f : Flow D) → Fits b f → Fits b (idle_check checked f)
  idle_check-Fits b checked (go c) h =
      elim (Bool-cases (ltb idle_timeout (checked - c.last_activity))) [
        | inl e ↦ rw e tt
        | inr e ↦ rw e h
      ]
  idle_check-Fits b checked ended h = tt
  idle_check-Fits b checked failed h = tt

  turn-Once :
      (t : Turn) (c : Connection D)
      → IsBare c
      → Once w client (text_of t.arrival) c (turn w client t c)
  unfolding turn
  turn-Once t c b =
      let (received, leads, fits) = on_arrival-Once t t.arrival c b in
      (received, leads, idle_check-Fits received t.checked _ fits)

  read_loop-Once :
      (ts : List Turn) (c : Connection D)
      → IsBare c
      → Once w client (texts ts) c (read_loop w client ts c)
  unfolding read_loop handshake
  read_loop-Once [] c b = Once-stay w client [] c [] (go c) refl (refl, b)
  read_loop-Once (t ∷ ts) c b =
      Once-continue w client (text_of t.arrival) (texts ts) c (turn w client t c)
        (read_loop w client ts) (turn-Once t c b) (read_loop-Once ts)

  -- What a connection that has not received its instruments can do.
  Leads-cases :
      (ts : List String) (b : Bool) (hs : List (Output D N))
      → Leads w client ts false hs b
      → (hs ≡ []) ⊎ Passed w client ts hs
  Leads-cases ts false hs h = inl h
  Leads-cases ts true hs h = inr h

  -- Whatever arrives, the instrument snapshots and the subscriptions among the outputs of a connection
  -- are, in this order: the subscription to the instruments and nothing else, or that subscription, one
  -- instrument snapshot, and directly after it the subscription to the books of the client's symbols at
  -- the client's depth. The snapshot has the pairs of an instrument message of type "snapshot", as which
  -- one of the texts that arrived is read.
  pub handshake-run_connected :
      (accepted : Bool) (now : Time) (ts : List Turn)
      → let hs = handshake (run_connected w client accepted now ts).0 in
        let instruments = subscribe_to (subscribe_instrument w.of_u32 true) in
        (hs ≡ instruments ∷ [])
        ⊎ ((msg : InstrumentMessage) × Reads w client (texts ts) msg
            × (msg.msg_type ≡ "snapshot")
            × (hs
                ≡ instruments
                  ∷ event
                      (instrument_snapshot (add_pairs w.parser w.number_text msg.content.pairs []))
                  ∷ subscribe_to (subscribe_book w.of_u32 client.symbols client.depth true)
                  ∷ []))
  unfolding run_connected handshake
  handshake-run_connected false now ts = inl refl
  handshake-run_connected true now ts =
      let start : Connection D = record {
        instruments_received = false;
        instruments = [];
        last_activity = now;
      } in
      let first : Output D N = subscribe_to (subscribe_instrument w.of_u32 true) in
      let (received, leads, fits) = read_loop-Once ts start refl in
      elim (Leads-cases (texts ts) received _ leads) [
        | inl e ↦ inl (ap (λ hs. first ∷ hs) e)
        | inr (msg, reads, kind, e) ↦ inr (msg, reads, kind, ap (λ hs. first ∷ hs) e)
      ]
