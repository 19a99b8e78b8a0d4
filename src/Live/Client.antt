-- ===== src/Live/Client.antt =====
-- crates/blackbox-server/src/main.rs: `run_client`, from the texts that arrive to the books.
use k_blackbox.Base.{ℕ, ◌≡◌, ap, ◌∙◌, List, String}
use k_blackbox.Decimal.{Decimal}
use k_blackbox.Words.{Float}
use k_blackbox.Checksum.{Hasher}
use k_blackbox.DashMap.{get}
use k_blackbox.Export.{Encoder}
use k_blackbox.State.{get_depth}
use k_blackbox.Client.Connection.{Wire, WsClient}
use k_blackbox.Processor.Books.{book_after}
use k_blackbox.Processor.Defs.{Clock}
use k_blackbox.Processor.Run.{RunState, next}
use k_blackbox.Processor.Run.Books.{get-process_ws_events-next}
use k_blackbox.Live.{Attempt, run, stamped, run_session}
use k_blackbox.Live.Replayed.{frames_sent, Heard, run-Heard}
use k_blackbox.Live.Texts.{texts_after}
use k_blackbox.Live.Books.{stamped-events, run-books}

module _ {D F N : Type 0} ⦃d : Decimal D⦄ (f : Float F) (h : Hasher) (enc : Encoder F N)
    (format_id : ℕ → String → String) (w : Wire D F N) (client : WsClient) (symbol : String) where
  -- Where the loop of `run` handles all events of its client to their end, the book of each symbol is
  -- what the texts that the connections hear say, at the depth of the symbol, as in a live session of
  -- the other loop.
  pub run_session_books :
      (clock : ℕ → Clock) (attempts : List Attempt) (r r' : RunState D F N)
      → run_session f h enc format_id w client clock attempts r ≡ next r'
      → (heard : List String) × (get symbol r'.state.orderbooks
          ≡ texts_after w (get_depth symbol r.state) symbol heard (get symbol r.state.orderbooks))
        × Heard w client attempts heard
  unfolding run_session
  run_session_books clock attempts r r' e =
      let es = run w client attempts in
      let deep = get_depth symbol r.state in
      let old = get symbol r.state.orderbooks in
      (
        frames_sent es,
        get-process_ws_events-next f h enc format_id symbol (stamped clock 0 es) r r' e
            ∙ ap (λ es. book_after deep symbol es old) (stamped-events clock 0 es)
            ∙ run-books w deep symbol client attempts old,
        run-Heard w client attempts,
      )
