-- ===== src/Tests/Live.antt =====
-- The theorems on a live session and on what the terminal draws of it, at concrete inputs.
use k_blackbox.Base.{
  ℕ, suc, ◌≡◌, ◌<◌, refl, List, [], ◌∷◌, length, true, false, none, some, String, arith,
}
use k_blackbox.DashMap.{get, get_or}
use k_blackbox.DashMap
use k_blackbox.Health
use k_blackbox.Types.{no_fault, as_fast, ReplayConfig}
use k_blackbox.Recorder.{Recorder, record_frames, close}
use k_blackbox.Recorder
use k_blackbox.Json.{string, object, field, end}
use k_blackbox.State.{get_depth}
use k_blackbox.Client.Connection.{Wire, message, read_end, text, Turn, WsClient}
use k_blackbox.Processor.Capture.{LoggedState}
use k_blackbox.Playback.Offline.{completed, replay_recording}
use k_blackbox.Processor.Logged.{process_ws_events}
use k_blackbox.Playback.{is_wanted}
use k_blackbox.Live.{Attempt, run, stamped, live_session}
use k_blackbox.Live.Tape.{recorded}
use k_blackbox.Live.Reproduced.{playback, playback_books}
use k_blackbox.Live.Texts.{texts_after}
use k_blackbox.Live.Books.{live_session_books}
use k_blackbox.Live.Replayed.{Heard, live_session-recorder, live_session_replayed}
use k_blackbox.Tui.App.{get_selected_symbol}
use k_blackbox.Tui.App
use k_blackbox.Tui.Snapshot.{from_state, shown_symbols}
use k_blackbox.Tui.Console.{Console, look}
use k_blackbox.Tui.Widgets.{integrity_inspector}
use k_blackbox.Tui.Widgets.Book.{render_orderbook}
use k_blackbox.Tui.Widgets.Marks.{picked}
use k_blackbox.Tui.Tab.{Scales, integrity_tab}
use k_blackbox.Tui.Tab.Selected.{integrity_tab_selected}
use k_blackbox.Tests.Values.{Fixed, fixed_decimal, thousandths}
use k_blackbox.Tests.Session.{log_clock, tools, session, manager}
use k_blackbox.Tests.Replays.{api, scaled}
use k_blackbox.Tests.Terminal.{turn, env, two_healths, bitcoin_health, ether_health, to_f64}

abbrev pub client : WsClient
client = record { symbols = "BTC/USD" ∷ []; depth = 10; ping_interval = 30000000000 }

abbrev says : String → Turn
says t = record { arrival = message (text t); now = 1; checked = 2; accepted = true }

-- A connection that ends after two texts, one that is refused, and one that goes on.
abbrev pub attempts : List Attempt
attempts =
    record {
      reached = true;
      accepted = true;
      now = 0;
      turns =
          says "one"
          ∷ says "two"
          ∷ record { arrival = read_end; now = 3; checked = 4; accepted = true }
          ∷ [];
    }
    ∷ record { reached = false; accepted = true; now = 5; turns = says "lost" ∷ [] }
    ∷ record { reached = true; accepted = true; now = 6; turns = says "three" ∷ [] }
    ∷ []

abbrev recording : LoggedState Fixed ℕ ℕ
recording = record {
  state = record session {
    recording_enabled = true;
    recording_path = some "live.ndjson";
    recorder = some (Recorder.new "live.ndjson");
  };
  manager = manager;
  recorder = none;
}

live_session_replayed_example :
    (r : Recorder) × (heard : List String) × ((live_session tools env.wire client
        (λ n. log_clock)
        attempts
        recording).state.recorder
      ≡ some r)
    × (replay_recording tools.float api scaled
          (λ x. false)
          (λ x. false)
          (suc (length heard))
          (λ n i. i)
          50
          (close r).file
          0
          no_fault
        ≡ (heard, completed))
    × Heard env.wire client attempts heard
live_session_replayed_example =
    live_session_replayed tools env.wire client api scaled (λ n. log_clock) attempts recording
      "live.ndjson" (λ x. false) (λ x. false) (λ n i. i) 50 0 refl refl refl refl

abbrev scales : Scales Fixed ℕ
scales = record { threshold = 950; share = 950; width = 25000; to_f64 = to_f64 }

abbrev console : Console Fixed ℕ
console = record { app = App.new none; state = two_healths bitcoin_health ether_health }

bitcoin_selected :
    get_selected_symbol (look thousandths "LIVE" "OFF" (turn none) console).symbols console.app
    ≡ some "BTC/USD"
unfolding get_selected_symbol look from_state shown_symbols App.new DashMap.keys Health.new
bitcoin_selected = refl

index_in_range :
    console.app.selected_symbol_index
    < length (look thousandths "LIVE" "OFF" (turn none) console).symbols
unfolding look from_state shown_symbols App.new DashMap.keys Health.new
index_in_range = omega arith

integrity_tab_selected_example :
    let tab =
      integrity_tab thousandths scales 20
        (look thousandths "LIVE" "OFF" (turn none) console)
        console.app
        session in
    (picked tab.symbols ≡ "BTC/USD" ∷ [])
    × (tab.inspector
        ≡ integrity_inspector thousandths scales.share
            (get "BTC/USD" console.state.integrity_proofs)
            (some "BTC/USD"))
    × (tab.book
        ≡ render_orderbook thousandths scales.to_f64 scales.width
            (get_or 10 "BTC/USD" session.depths)
            20
            (some "BTC/USD")
            session)
integrity_tab_selected_example =
    integrity_tab_selected thousandths scales "LIVE" "OFF" 20 (turn none) console session "BTC/USD"
      refl index_in_range bitcoin_selected

-- Every text is a snapshot of an empty book.
abbrev pub snapshots_wire : Wire Fixed ℕ ℕ
snapshots_wire = record env.wire {
  messages = record env.wire.messages {
    from_str = λ s. some (object (field "channel" (string "book") end));
    to_book = λ v. some (record {
      msg_type = "snapshot";
      content =
          record { symbol = "BTC/USD"; bids = none; asks = none; checksum = none; timestamp = none }
          ∷ [];
    });
  };
}

live_session_books_example :
    (heard : List String) × (get "BTC/USD"
        (live_session tools snapshots_wire client
          (λ n. log_clock)
          attempts
          recording).state.orderbooks
      ≡ texts_after snapshots_wire
          (get_depth "BTC/USD" recording.state)
          "BTC/USD"
          heard
          (get "BTC/USD" recording.state.orderbooks))
    × Heard snapshots_wire client attempts heard
live_session_books_example =
    live_session_books tools snapshots_wire client "BTC/USD" (λ n. log_clock) attempts recording
      refl

abbrev recorded_live : Recorder
recorded_live =
    record_frames (recorded (stamped (λ n. log_clock) 0 (run snapshots_wire client attempts)))
      (Recorder.new "live.ndjson")

abbrev replay_start : LoggedState Fixed ℕ ℕ
replay_start = record { state = session; manager = manager; recorder = none }

wanted_btc : is_wanted ("BTC/USD" ∷ []) "BTC/USD" ≡ true
unfolding is_wanted
wanted_btc = refl

same_depth : get_depth "BTC/USD" replay_start.state ≡ get_depth "BTC/USD" recording.state
unfolding get_depth
same_depth = refl

abbrev plain : ReplayConfig ℕ ℕ
plain = record { mode = as_fast; fault = no_fault }

playback_books_example :
    let played =
      playback tools snapshots_wire client api scaled
        ("BTC/USD" ∷ [])
        (λ n i. i)
        48
        49
        50
        51
        plain
        "live.ndjson"
        recorded_live.file
        session in
    (played.1 ≡ true)
    × (get "BTC/USD"
          (process_ws_events tools
            (stamped (λ n. log_clock) 0 played.0)
            replay_start).state.orderbooks
        ≡ get "BTC/USD"
            (live_session tools snapshots_wire client
              (λ n. log_clock)
              attempts
              recording).state.orderbooks)
playback_books_example =
    playback_books tools snapshots_wire client api scaled ("BTC/USD" ∷ []) "BTC/USD"
      (λ n. log_clock) (λ n. log_clock) attempts recording replay_start recorded_live "live.ndjson"
      "live.ndjson" (λ n i. i) 48 49 50 51 plain session refl refl refl
      (live_session-recorder tools snapshots_wire client (λ n. log_clock) attempts recording
        (Recorder.new "live.ndjson") refl refl)
      refl refl wanted_btc refl same_depth refl
