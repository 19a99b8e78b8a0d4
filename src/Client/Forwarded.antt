-- ===== src/Client/Forwarded.antt =====
-- crates/blackbox-ws/src/client.rs: which of the texts that arrive are passed on as frames.
use k_blackbox.Base.{
  ◌≡◌, refl, ap, sym, ◌∙◌, List, [], ◌∷◌, ◌++◌, append-nil, append_assoc, Bool, String,
  if◌then◌else◌, arith,
}
use k_blackbox.Types.{BookData}
use k_blackbox.Parser.{
  ParsedFrame, WsFrame, ack, book, instrument, status, heartbeat, ok, err, parse_frame,
}
use k_blackbox.Parser
use k_blackbox.Client.Connection.{
  Wire, WsEvent, connected, disconnected, rate_limit_exceeded, frame, error, instrument_snapshot,
  book_snapshot, book_update, Output, event, subscribe_to, send_ping, text, close, ping_pong, other,
  Arrival, message, read_error, read_end, ping_closed, ping_due, Turn, WsClient, Connection, Flow,
  go, ended, failed, Did, on_pairs, on_instrument, book_event, book_events, on_frame, on_text,
  on_arrival, turn, continue, read_loop, is_rate_limit,
}

module _ {D : Type 0} where
  abbrev pub frame_of : WsEvent D → List String
  frame_of (instrument_snapshot m) = []
  frame_of connected = []
  frame_of disconnected = []
  frame_of rate_limit_exceeded = []
  frame_of (frame t) = t ∷ []
  frame_of (error t) = []
  frame_of (book_snapshot s b a k) = []
  frame_of (book_update s b a k t) = []

module _ {D N : Type 0} where
  -- The frames among the outputs.
  abbrev pub frames : List (Output D N) → List String
  frames [] = []
  frames (event e ∷ os) = frame_of e ++ frames os
  frames (subscribe_to v ∷ os) = frames os
  frames (send_ping v ∷ os) = frames os

  pub frames-append : (os os' : List (Output D N)) → frames (os ++ os') ≡ frames os ++ frames os'
  frames-append [] os' = refl
  frames-append (event e ∷ os) os' =
      ap (λ r. frame_of e ++ r) (frames-append os os')
      ∙ sym (append_assoc (frame_of e) (frames os) (frames os'))
  frames-append (subscribe_to v ∷ os) os' = frames-append os os'
  frames-append (send_ping v ∷ os) os' = frames-append os os'

-- The text that a turn brings, if any, unless it is a complaint about the rate.
abbrev pub text_of : Arrival → List String
text_of (message (text t)) = if is_rate_limit t then [] else t ∷ []
text_of (message close) = []
text_of (message ping_pong) = []
text_of (message other) = []
text_of (ping_due sent) = []
text_of ping_closed = []
text_of read_error = []
text_of read_end = []

abbrev pub texts : List Turn → List String
texts [] = []
texts (t ∷ ts) = text_of t.arrival ++ texts ts

abbrev pub IsPrefix : List String → List String → Type 0
IsPrefix xs ys = (zs : List String) × (xs ++ zs ≡ ys)

-- All the texts of a finished loop were passed on, or the loop ended before the last of them.
abbrev pub Forwarded : {D : Type 0} → Flow D → List String → List String → Type 0
Forwarded (go c) xs ys = xs ≡ ys
Forwarded ended xs ys = IsPrefix xs ys
Forwarded failed xs ys = IsPrefix xs ys

module _ {D F N : Type 0} (w : Wire D F N) (client : WsClient) where
  book_events-frames :
      (msg_type : String) (ds : List (BookData N)) → frames (book_events w client msg_type ds) ≡ []
  unfolding book_events book_event
  book_events-frames msg_type [] = refl
  book_events-frames msg_type (d ∷ ds) = ground (arith, book_events-frames msg_type ds)

  pub on_frame-frames :
      (accepted : Bool) (f : ParsedFrame N) (c : Connection D)
      → frames (on_frame w client accepted f c).0 ≡ []
  unfolding on_frame on_instrument on_pairs
  on_frame-frames accepted (err e) c = refl
  on_frame-frames accepted (ok (instrument msg)) c = ground arith
  on_frame-frames accepted (ok (book msg)) c = book_events-frames msg.msg_type msg.content
  on_frame-frames accepted (ok (heartbeat m)) c = refl
  on_frame-frames accepted (ok (Parser.ping m)) c = refl
  on_frame-frames accepted (ok (status m)) c = refl
  on_frame-frames accepted (ok (ack a)) c = ground arith

  on_text-frames :
      (accepted : Bool) (t : String) (c : Connection D)
      → frames (on_text w client accepted t c).0 ≡ (if is_rate_limit t then [] else t ∷ [])
  unfolding on_text
  on_text-frames accepted t c =
      ground (arith, on_frame-frames accepted (parse_frame w.messages t) c)

  turn-frames : (t : Turn) (c : Connection D) → frames (turn w client t c).0 ≡ text_of t.arrival
  unfolding turn
  turn-frames t c = by_arrival t.arrival
    where
      by_arrival : (a : Arrival) → frames (on_arrival w client t.accepted t.now a c).0 ≡ text_of a
      by_arrival (message (text m)) =
          on_text-frames t.accepted m (record c { last_activity = t.now })
      by_arrival (message close) = refl
      by_arrival (message ping_pong) = refl
      by_arrival (message other) = refl
      by_arrival (ping_due sent) = refl
      by_arrival ping_closed = refl
      by_arrival read_error = refl
      by_arrival read_end = refl

module _ {D : Type 0} where
  -- More frames in front, of the outputs and of the texts alike.
  Forwarded-cons :
      (xs : List String) (f : Flow D) (ys zs : List String)
      → Forwarded f ys zs
      → Forwarded f (xs ++ ys) (xs ++ zs)
  Forwarded-cons xs (go c) ys zs h = ap (λ r. xs ++ r) h
  Forwarded-cons xs ended ys zs (r, h) = (r, append_assoc xs ys r ∙ ap (λ r. xs ++ r) h)
  Forwarded-cons xs failed ys zs (r, h) = (r, append_assoc xs ys r ∙ ap (λ r. xs ++ r) h)

module _ {D N : Type 0} where
  Forwarded-continue :
      (xs : List String) (ts : List Turn) (first : Did D N) (rest : Connection D → Did D N)
      → frames first.0 ≡ xs
      → ((c : Connection D) → Forwarded (rest c).1 (frames (rest c).0) (texts ts))
      → Forwarded
          (continue rest first.1).1
          (frames (first.0 ++ (continue rest first.1).0))
          (xs ++ texts ts)
  Forwarded-continue xs ts (os, go c) rest e k =
      rw (frames-append os (rest c).0)
        (rw e (Forwarded-cons xs (rest c).1 (frames (rest c).0) (texts ts) (k c)))
  Forwarded-continue xs ts (os, ended) rest e k =
      (texts ts, ap (λ r. r ++ texts ts) (ap frames (append-nil os) ∙ e))
  Forwarded-continue xs ts (os, failed) rest e k =
      (texts ts, ap (λ r. r ++ texts ts) (ap frames (append-nil os) ∙ e))

module _ {D F N : Type 0} (w : Wire D F N) (client : WsClient) where
  -- The frames that the loop of a connection passes on are the texts that arrived, once each and in
  -- their order, but for complaints about the rate: all of them while the connection goes on, and the
  -- first ones, up to some text, if it ended or failed.
  pub read_loop-Forwarded :
      (ts : List Turn) (c : Connection D)
      → Forwarded (read_loop w client ts c).1 (frames (read_loop w client ts c).0) (texts ts)
  unfolding read_loop
  read_loop-Forwarded [] c = refl
  read_loop-Forwarded (t ∷ ts) c =
      Forwarded-continue (text_of t.arrival) ts (turn w client t c) (read_loop w client ts)
        (turn-frames w client t c) (read_loop-Forwarded ts)
