-- ===== src/Tests/Client.antt =====
-- The theorem on a session of `run`, at a concrete input.
use k_blackbox.Base.{ℕ, ◌≡◌, refl, List, [], none, String}
use k_blackbox.DashMap.{get}
use k_blackbox.Parser
use k_blackbox.Json
use k_blackbox.State.{get_depth}
use k_blackbox.Processor.Run.{RunState, Outcome, next, deadlock}
use k_blackbox.Live.{run_session}
use k_blackbox.Live.Replayed.{Heard}
use k_blackbox.Live.Texts.{texts_after}
use k_blackbox.Live.Client.{run_session_books}
use k_blackbox.Tests.Values.{Fixed, fixed_decimal, thousandths, hasher}
use k_blackbox.Tests.Session.{base_clock, format_id, encoder, session, manager}
use k_blackbox.Tests.Live.{client, attempts, snapshots_wire}

abbrev run_state : RunState Fixed ℕ ℕ
run_state = record { state = session; manager = manager; recorder = none; exported = [] }

abbrev ended : Outcome (RunState Fixed ℕ ℕ)
ended =
    run_session thousandths hasher encoder format_id snapshots_wire client (λ n. base_clock)
      attempts run_state

abbrev settled : Outcome (RunState Fixed ℕ ℕ) → RunState Fixed ℕ ℕ
settled (next r) = r
settled deadlock = run_state

settles : ended ≡ next (settled ended)
unfolding run_session Parser.parse_frame Parser.parse_value Parser.is_ack Json.get Json.as_str
    Parser.by_channel
settles = refl

run_session_books_example :
    (heard : List String) × (get "BTC/USD" (settled ended).state.orderbooks
      ≡ texts_after snapshots_wire
          (get_depth "BTC/USD" session)
          "BTC/USD"
          heard
          (get "BTC/USD" session.orderbooks))
    × Heard snapshots_wire client attempts heard
run_session_books_example =
    run_session_books thousandths hasher encoder format_id snapshots_wire client "BTC/USD"
      (λ n. base_clock) attempts run_state (settled ended) settles
