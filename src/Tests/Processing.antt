-- ===== src/Tests/Processing.antt =====
-- The theorems on the two loops over the events, the interface over HTTP and the terminal, at
-- concrete inputs.
use k_blackbox.Base.{
  ℕ, ◌≡◌, ◌≢◌, ◌↔◌, refl, List, [], ◌∷◌, head?, false, none, some, String, eq_iff, arith,
}
use k_blackbox.Json.{Value, string, array, nil, object, field, end, find}
use k_blackbox.Json.{get as get_json}
use k_blackbox.DashMap.{get, get_or}
use k_blackbox.Orderbook.{depth}
use k_blackbox.Checksum.{verify_checksum}
use k_blackbox.Integrity.Injector.{FaultInjector, trigger}
use k_blackbox.Integrity.Proof.{IntegrityProof, is_match}
use k_blackbox.State.{get_depth}
use k_blackbox.Client.Connection.{frame, WsEvent, book_update}
use k_blackbox.Processor.Run.{RunState, Outcome, next, deadlock}
use k_blackbox.Processor.Run
use k_blackbox.Processor.Run.Stops.{MeetsMismatch, process_ws_events-deadlock}
use k_blackbox.Processor.Defs.{Clock}
use k_blackbox.Processor.Capture.{Tools, LogClock, verify_book}
use k_blackbox.Processor.Logged
use k_blackbox.Processor.Books.{book_after, IsKept}
use k_blackbox.Processor.Logged.Books.{get-process_ws_events, process_ws_events-IsKept}
use k_blackbox.Processor.Logged.Verdict.{Judged, verify_book_verdict}
use k_blackbox.Processor.Logged.Buffers.{array_frame_unbuffered}
use k_blackbox.Processor.Logged.Fault.{with_injector, fault_lost}
use k_blackbox.Http.{book_handler, book_top_handler}
use k_blackbox.Http.Top.{book_handler-top}
use k_blackbox.Tests.Session.{
  base_clock, log_clock, format_id, encoder, tools, session, manager, logged_state,
}
use k_blackbox.Tests.Values.{
  Fixed, fixed, fixed_decimal, thousandths, hasher, small_book, small_book-IsValid, bitcoin,
}

abbrev run_state : RunState Fixed ℕ ℕ
run_state = record { state = session; manager = manager; recorder = none; exported = [] }

-- An update of the book, with and without a checksum, which is wrong.
abbrev quiet_update : WsEvent Fixed
quiet_update = book_update "BTC/USD" ((fixed 95, fixed 100) ∷ []) [] none none

abbrev bad_update : WsEvent Fixed
bad_update = book_update "BTC/USD" ((fixed 95, fixed 100) ∷ []) [] (some 1) none

-- The first event settles, and the second does not.
abbrev two_updates : List (Clock × WsEvent Fixed)
two_updates = (base_clock, quiet_update) ∷ (base_clock, bad_update) ∷ []

process_ws_events-deadlock_example :
    (Run.process_ws_events thousandths hasher encoder format_id two_updates run_state ≡ deadlock)
    ↔ MeetsMismatch thousandths hasher encoder format_id two_updates run_state
process_ws_events-deadlock_example =
    process_ws_events-deadlock thousandths hasher encoder format_id two_updates run_state

abbrev events : List (LogClock × WsEvent Fixed)
events = (log_clock, quiet_update) ∷ (log_clock, bad_update) ∷ []

get-process_ws_events_example :
    get "BTC/USD" (Logged.process_ws_events tools events logged_state).state.orderbooks
    ≡ book_after
        (get_depth "BTC/USD" session)
        "BTC/USD"
        (quiet_update ∷ bad_update ∷ [])
        (get "BTC/USD" session.orderbooks)
get-process_ws_events_example = get-process_ws_events tools "BTC/USD" events logged_state refl

session-IsKept : IsKept (get_depth "BTC/USD" session) (get "BTC/USD" session.orderbooks)
unfolding get get_or get_depth depth
session-IsKept = (small_book-IsValid, omega arith, omega arith)

process_ws_events-IsKept_example :
    IsKept
      (get_depth "BTC/USD" session)
      (get "BTC/USD" (Logged.process_ws_events tools events logged_state).state.orderbooks)
process_ws_events-IsKept_example =
    process_ws_events-IsKept tools "BTC/USD" events logged_state refl session-IsKept

known : get "BTC/USD" session.instruments ≡ some bitcoin
unfolding get
known = refl

verify_book_verdict_example :
    Judged tools "BTC/USD"
      (verify_checksum hasher small_book 1 2 2)
      logged_state
      (verify_book tools log_clock "BTC/USD" small_book (some 1) logged_state)
    × (proof : IntegrityProof Fixed) × (get "BTC/USD"
          (verify_book tools log_clock "BTC/USD" small_book
            (some 1)
            logged_state).state.integrity_proofs
        ≡ some proof)
    × (is_match proof ≡ verify_checksum hasher small_book 1 2 2)
verify_book_verdict_example =
    verify_book_verdict tools log_clock "BTC/USD" small_book 1 bitcoin logged_state known

other_symbol : ◌≢◌ {A = String} "ETH/USD" "BTC/USD"
other_symbol h = cc ((eq_iff "ETH/USD" "BTC/USD").1 h)

abbrev injector : FaultInjector
injector = session.fault_injector

fault_lost_example :
    (Logged.process_event tools log_clock quiet_update
        (with_injector (trigger "ETH/USD" injector) logged_state)
      ≡ Logged.process_event tools log_clock quiet_update
          (with_injector (record (trigger "ETH/USD" injector) { enabled = false }) logged_state))
    × ((Logged.process_event tools log_clock quiet_update
          (with_injector (trigger "ETH/USD" injector) logged_state)).state.fault_injector
        ≡ record (trigger "ETH/USD" injector) { enabled = false })
fault_lost_example =
    fault_lost tools log_clock "ETH/USD" "BTC/USD" injector ((fixed 95, fixed 100) ∷ []) [] none
      none logged_state other_symbol

-- Every text is read as a book message.
abbrev message : Value ℕ
message = object (field "channel" (string "book") (field "data" (array nil) end))

abbrev reading_tools : Tools Fixed ℕ ℕ
reading_tools = record tools { from_str = λ s. some message }

message_array : get_json "data" message ≡ some (array nil)
unfolding get_json find
message_array = refl

array_frame_unbuffered_example :
    (Logged.process_event reading_tools log_clock (frame "{}") logged_state).state.per_symbol_frames
    ≡ logged_state.state.per_symbol_frames
array_frame_unbuffered_example =
    array_frame_unbuffered reading_tools log_clock "{}" message nil logged_state refl message_array

book_handler-top_example :
    ((book_handler "BTC/USD" (some 1) session).0 ≡ (book_top_handler "BTC/USD" session).0)
    × (head? (book_handler "BTC/USD" (some 1) session).1.bids
        ≡ (book_top_handler "BTC/USD" session).1.best_bid)
    × (head? (book_handler "BTC/USD" (some 1) session).1.asks
        ≡ (book_top_handler "BTC/USD" session).1.best_ask)
book_handler-top_example = book_handler-top "BTC/USD" (some 1) session tt
