-- ===== src/Live/Books.antt =====
-- crates/blackbox-ws/src/client.rs and crates/blackbox-server/src/main.rs: from the texts that arrive to
-- the books.
use k_blackbox.Base.{
  ℕ, suc, ◌≡◌, refl, ap, sym, ◌∙◌, List, [], ◌∷◌, ◌++◌, map, false, Option, String,
}
use k_blackbox.Decimal.{Decimal}
use k_blackbox.DashMap.{get}
use k_blackbox.Orderbook.{Orderbook}
use k_blackbox.State.{get_depth}
use k_blackbox.Client.Connection.{Wire, WsEvent, WsClient, Flow, go, ended, failed, connect_and_run}
use k_blackbox.Client.Forwarded.{frames}
use k_blackbox.Processor.Books.{book_after}
use k_blackbox.Processor.Capture.{Tools, LogClock, LoggedState}
use k_blackbox.Processor.Logged.Books.{get-process_ws_events}
use k_blackbox.Processor.Logged.{process_ws_events}
use k_blackbox.Live.{Attempt, events, after_attempt, run, stamped, live_session}
use k_blackbox.Live.Replayed.{frames_sent, frames_sent-append, frames_sent-events, Heard, run-Heard}
use k_blackbox.Live.Texts.{
  texts_after, book_after-append, texts_after-append, connect_and_run-Tells,
}

module _ {D F N : Type 0} ⦃d : Decimal D⦄ (w : Wire D F N) (depth : ℕ) (symbol : String) where
  module _ (client : WsClient) where
    -- The events of the client's `run` make of a book what the frames among them say.
    pub run-books :
        (attempts : List Attempt) (o : Option (Orderbook D))
        → book_after depth symbol (run w client attempts) o
          ≡ texts_after w depth symbol (frames_sent (run w client attempts)) o
    unfolding run book_after texts_after
    run-books [] o = refl
    run-books (a ∷ later) o =
        let (os, flow) = connect_and_run w client a.reached a.accepted a.now a.turns in
        let rest = after_attempt flow (run w client later) in
        book_after-append w depth symbol (events os) rest o
        ∙ after_attempt-books flow (run w client later) _ (run-books later _)
        ∙ ap (texts_after w depth symbol (frames_sent rest))
            (connect_and_run-Tells w depth symbol client a o)
        ∙ sym (texts_after-append w depth symbol (frames os) (frames_sent rest) o)
        ∙ ap (λ ts. texts_after w depth symbol (ts ++ frames_sent rest) o)
            (sym (frames_sent-events os))
        ∙ ap (λ ts. texts_after w depth symbol ts o) (sym (frames_sent-append (events os) rest))
      where
        after_attempt-books :
            (flow : Flow D) (es : List (WsEvent D)) (o : Option (Orderbook D))
            → book_after depth symbol es o ≡ texts_after w depth symbol (frames_sent es) o
            → book_after depth symbol (after_attempt flow es) o
              ≡ texts_after w depth symbol (frames_sent (after_attempt flow es)) o
        after_attempt-books (go c) es o h = refl
        after_attempt-books ended es o h = h
        after_attempt-books failed es o h = h

pub stamped-events :
    {C D : Type 0} (clock : ℕ → C) (n : ℕ) (es : List (WsEvent D))
    → map (λ e. e.1) (stamped clock n es) ≡ es
unfolding stamped
stamped-events clock n [] = refl
stamped-events clock n (e ∷ es) = ap (λ r. e ∷ r) (stamped-events clock (suc n) es)

module _ {D F N : Type 0} ⦃d : Decimal D⦄ (tools : Tools D F N) (symbol : String) where
  -- The book after a run of events, whenever they are handled.
  pub stamped-books :
      (clock : ℕ → LogClock) (es : List (WsEvent D)) (l : LoggedState D F N)
      → l.state.fault_injector.enabled ≡ false
      → get symbol (process_ws_events tools (stamped clock 0 es) l).state.orderbooks
        ≡ book_after (get_depth symbol l.state) symbol es (get symbol l.state.orderbooks)
  stamped-books clock es l off =
      get-process_ws_events tools symbol (stamped clock 0 es) l off
      ∙ ap (λ es. book_after (get_depth symbol l.state) symbol es (get symbol l.state.orderbooks))
          (stamped-events clock 0 es)

module _ {D F N : Type 0} ⦃d : Decimal D⦄ (tools : Tools D F N) (w : Wire D F N) (client : WsClient)
    (symbol : String) where
  -- In a live session that starts with no fault armed, the book of each symbol is what the texts that
  -- its connections hear say, at the depth of the symbol. A text that parses as a book message says for
  -- each of its entries of the symbol: the book is this snapshot, or, if there is a book, it changes by
  -- this update. Of each connection the texts are heard once each and in their order, up to the last
  -- one while it goes on, or up to some text if it ended or failed.
  pub live_session_books :
      (clock : ℕ → LogClock) (attempts : List Attempt) (l : LoggedState D F N)
      → l.state.fault_injector.enabled ≡ false
      → (heard : List String) × (get symbol
            (live_session tools w client clock attempts l).state.orderbooks
          ≡ texts_after w (get_depth symbol l.state) symbol heard (get symbol l.state.orderbooks))
        × Heard w client attempts heard
  unfolding live_session
  live_session_books clock attempts l off =
      let es = run w client attempts in
      (
        frames_sent es,
        stamped-books tools symbol clock es l off
            ∙ run-books w (get_depth symbol l.state) symbol client attempts
                (get symbol l.state.orderbooks),
        run-Heard w client attempts,
      )
