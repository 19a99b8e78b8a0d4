-- ===== src/Client/Handshake.antt =====
-- crates/blackbox-ws/src/client.rs: the instrument snapshot that a connection passes on and what it
-- subscribes to, as steps that follow one another.
use k_blackbox.Base.{
  ◌≡◌, refl, sym, ap₂, subst, ◌⊎◌, inl, inr, List, [], ◌∷◌, ◌++◌, append-nil, append_assoc, Bool,
  true, false, String, arith,
}
use k_blackbox.DashMap.{Map}
use k_blackbox.Types.{InstrumentInfo, InstrumentMessage}
use k_blackbox.Subscriptions.{subscribe_book}
use k_blackbox.Parser.{instrument, ok, parse_frame}
use k_blackbox.Client.Decode.{add_pairs}
use k_blackbox.Client.Connection.{
  Wire, connected, disconnected, rate_limit_exceeded, frame, error, instrument_snapshot,
  book_snapshot, book_update, Output, event, subscribe_to, send_ping, WsClient, Connection, Flow,
  go, ended, failed, Did, continue,
}

module _ {D N : Type 0} where
  -- The output, if it is an instrument snapshot that is passed on or a subscription.
  abbrev pub step_of : Output D N → List (Output D N)
  step_of (event (instrument_snapshot m)) = event (instrument_snapshot m) ∷ []
  step_of (event connected) = []
  step_of (event disconnected) = []
  step_of (event rate_limit_exceeded) = []
  step_of (event (frame t)) = []
  step_of (event (error t)) = []
  step_of (event (book_snapshot s b a k)) = []
  step_of (event (book_update s b a k t)) = []
  step_of (subscribe_to v) = subscribe_to v ∷ []
  step_of (send_ping v) = []

  -- The instrument snapshots and the subscriptions among the outputs, in their order.
  unfoldable pub handshake : List (Output D N) → List (Output D N)
  handshake [] = []
  handshake (o ∷ os) = step_of o ++ handshake os

  handshake-append :
      (os os' : List (Output D N)) → handshake (os ++ os') ≡ handshake os ++ handshake os'
  unfolding handshake
  handshake-append [] os' = refl
  handshake-append (o ∷ os) os' =
      rw (handshake-append os os', append_assoc (step_of o) (handshake os) (handshake os'))

module _ {D : Type 0} where
  -- Without a snapshot there are no instruments.
  abbrev pub Bare : Bool → Map (InstrumentInfo D) → Type 0
  Bare true m = Unit
  Bare false m = m ≡ []

  abbrev pub Fits : Bool → Flow D → Type 0
  Fits received (go c) = (c.instruments_received ≡ received) × Bare received c.instruments
  Fits received ended = Unit
  Fits received failed = Unit

  abbrev pub IsBare : Connection D → Type 0
  IsBare c = Bare c.instruments_received c.instruments

module _ {D F N : Type 0} (w : Wire D F N) (client : WsClient) where
  -- A snapshot and the subscription to the books that follows it.
  abbrev pub books_after : Map (InstrumentInfo D) → List (Output D N)
  books_after m =
      event (instrument_snapshot m)
      ∷ subscribe_to (subscribe_book w.of_u32 client.symbols client.depth true)
      ∷ []

  -- One of the texts is read as the instrument message.
  abbrev pub Reads : List String → InstrumentMessage → Type 0
  Reads [] msg = ⊥
  Reads (t ∷ ts) msg = (parse_frame w.messages t ≡ ok (instrument msg)) ⊎ Reads ts msg

  Reads-before :
      (ts ts' : List String) (msg : InstrumentMessage) → Reads ts msg → Reads (ts ++ ts') msg
  Reads-before [] ts' msg h = absurd h
  Reads-before (t ∷ ts) ts' msg (inl e) = inl e
  Reads-before (t ∷ ts) ts' msg (inr h) = inr (Reads-before ts ts' msg h)

  Reads-after :
      (ts ts' : List String) (msg : InstrumentMessage) → Reads ts' msg → Reads (ts ++ ts') msg
  Reads-after [] ts' msg h = h
  Reads-after (t ∷ ts) ts' msg h = inr (Reads-after ts ts' msg h)

  -- An instrument snapshot among the texts `ts` is passed on: the pairs that it has, and the
  -- subscription to the books.
  abbrev pub Passed : List String → List (Output D N) → Type 0
  Passed ts hs =
      (msg : InstrumentMessage) × Reads ts msg
      × (msg.msg_type ≡ "snapshot")
      × (hs ≡ books_after (add_pairs w.parser w.number_text msg.content.pairs []))

  -- With the texts `ts` heard, the steps `hs` lead from a connection that has (`true`) or has not
  -- received its instruments to one that has or has not.
  abbrev pub Leads : List String → Bool → List (Output D N) → Bool → Type 0
  Leads ts true hs received = (hs ≡ []) × (received ≡ true)
  Leads ts false hs false = hs ≡ []
  Leads ts false hs true = Passed ts hs

  Leads-append :
      (ts ts' : List String) (a b c : Bool) (hs hs' : List (Output D N))
      → Leads ts a hs b
      → Leads ts' b hs' c
      → Leads (ts ++ ts') a (hs ++ hs') c
  Leads-append ts ts' true true c hs hs' (h, e) (k, e') = (ap₂ ◌++◌ h k, e')
  Leads-append ts ts' true false c hs hs' h k = absurd (ground arith)
  Leads-append ts ts' false false false hs hs' h k = ap₂ ◌++◌ h k
  Leads-append ts ts' false false true hs hs' h (msg, reads, kind, k) =
      (msg, Reads-after ts ts' msg reads, kind, ap₂ ◌++◌ h k)
  Leads-append ts ts' false true true hs hs' (msg, reads, kind, h) (k, e) =
      (msg, Reads-before ts ts' msg reads, kind, ap₂ ◌++◌ h k)
  Leads-append ts ts' false true false hs hs' h k = absurd (ground arith)

  Leads-more :
      (ts ts' : List String) (a b : Bool) (hs : List (Output D N))
      → Leads ts a hs b
      → Leads (ts ++ ts') a hs b
  Leads-more ts ts' true b hs h = h
  Leads-more ts ts' false false hs h = h
  Leads-more ts ts' false true hs (msg, reads, kind, h) =
      (msg, Reads-before ts ts' msg reads, kind, h)

  abbrev pub Once : List String → Connection D → Did D N → Type 0
  Once ts c did =
      (received : Bool) × Leads ts c.instruments_received (handshake did.0) received
      × Fits received did.1

  -- Where the flow goes on, the steps continue from the connection that it has.
  pub Once-continue :
      (ts ts' : List String) (c : Connection D) (first : Did D N) (rest : Connection D → Did D N)
      → Once ts c first
      → ((c' : Connection D) → IsBare c' → Once ts' c' (rest c'))
      → Once (ts ++ ts') c (first.0 ++ (continue rest first.1).0, (continue rest first.1).1)
  Once-continue ts ts' c (os, go c') rest (b, h, fits) k =
      let bare = subst (λ (x : Bool). Bare x c'.instruments) (sym fits.0) fits.1 in
      let (b', h', fits') = k c' bare in
      (
        b',
        subst (λ (hs : List (Output D N)). Leads (ts ++ ts') c.instruments_received hs b')
            (sym (handshake-append os (rest c').0))
            (Leads-append ts ts' c.instruments_received b b' (handshake os) (handshake (rest c').0)
              h (subst (λ (x : Bool). Leads ts' x (handshake (rest c').0) b') fits.0 h')),
        fits',
      )
  Once-continue ts ts' c (os, ended) rest (b, h, fits) k =
      (b, rw (append-nil os) (Leads-more ts ts' c.instruments_received b (handshake os) h), tt)
  Once-continue ts ts' c (os, failed) rest (b, h, fits) k =
      (b, rw (append-nil os) (Leads-more ts ts' c.instruments_received b (handshake os) h), tt)

  Leads-none : (ts : List String) (b : Bool) → Leads ts b [] b
  Leads-none ts true = (refl, refl)
  Leads-none ts false = refl

  -- Outputs without a step, after which the connection has received what it had.
  pub Once-stay :
      (ts : List String) (c : Connection D) (os : List (Output D N)) (f : Flow D)
      → handshake os ≡ []
      → Fits c.instruments_received f
      → Once ts c (os, f)
  Once-stay ts c os f h fits = (
    c.instruments_received,
    subst (λ (hs : List (Output D N)). Leads ts c.instruments_received hs c.instruments_received)
        (sym h) (Leads-none ts c.instruments_received),
    fits,
  )
