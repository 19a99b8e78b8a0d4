-- ===== src/Live/Reproduced.antt =====
-- crates/blackbox-server/src/main.rs and crates/blackbox-core/src/replayer.rs: the recording of a
-- live session, played into the loop with logging as fast as possible.
use k_blackbox.Base.{
  ℕ, ◌+◌, ◌≡◌, refl, ap, sym, ◌∙◌, List, [], ◌∷◌, ◌++◌, append-nil, map, replicate, length, Bool,
  true, false, none, some, String, arith,
}
use k_blackbox.Decimal.{Decimal}
use k_blackbox.Words.{Time}
use k_blackbox.DashMap.{get}
use k_blackbox.Types.{RecordedFrame, no_fault, as_fast, ReplayConfig}
use k_blackbox.Recorder.{Recorder, close}
use k_blackbox.Recorder
use k_blackbox.Replayer.Mutate.{JsonApi}
use k_blackbox.Replayer.{Replayer, start}
use k_blackbox.Replayer
use k_blackbox.State.{AppState, get_depth}
use k_blackbox.Client.Connection.{Wire, WsEvent, WsClient}
use k_blackbox.Processor.Capture.{Tools, LogClock, LoggedState}
use k_blackbox.Processor.Logged.{process_ws_events}
use k_blackbox.Playback.{is_wanted, replay_recording_internal, begin}
use k_blackbox.Playback.Gaps.{is_steady, replay_cut}
use k_blackbox.Playback.Answers.{answers, answers-records}
use k_blackbox.Live.{Attempt, stamped, live_session}
use k_blackbox.Live.Rerun.{given, played_books}

given_all : (ts : List String) → given (map some ts) ≡ ts
given_all [] = refl
given_all (t ∷ ts) = ap (λ r. t ∷ r) (given_all ts)

steady_all : (ts : List String) → is_steady 0 (map some ts) ≡ true
steady_all [] = refl
steady_all (t ∷ ts) = steady_all ts

module _ {D F N I : Type 0} ⦃d : Decimal D⦄ (tools : Tools D F N) (w : Wire D F N)
    (client : WsClient) (j : JsonApi N F I) (scaled : F → Time → Time)
    (requested : List String) where
  -- The playback of a recording, with a hundred and one turns after its last frame: the start and the
  -- connection are logged, the replayer starts, and the end is logged.
  abbrev pub playback :
      (ℕ → ℕ → Time)
      → Time
      → Time
      → Time
      → Time
      → ReplayConfig F I
      → String
      → List RecordedFrame
      → AppState D F
      → List (WsEvent D) × Bool × AppState D F
  playback clock logged joined started stopped config input records s =
      replay_recording_internal tools.float w requested logged joined stopped input
        (answers tools.float j scaled (length records + 101) clock
          (start started (Replayer.new records config)))
        s

  -- A live session in which no fault is armed starts with a new recording. Its recording is played back
  -- without faults and as fast as possible, and the events are handled by the loop with logging, in
  -- which no fault is armed either. For a symbol that was asked for and that has in this loop the depth
  -- and the book with which the live session started, the loop ends with the book with which the live
  -- session ended. The playback comes to its end, at the hundred and first time that there is no frame
  -- left.
  pub playback_books :
      (symbol : String) (clock clock' : ℕ → LogClock) (attempts : List Attempt)
      (l l' : LoggedState D F N) (r : Recorder) (path input : String) (replay_clock : ℕ → ℕ → Time)
      (logged joined started stopped : Time) (config : ReplayConfig F I) (s : AppState D F)
      → l.state.fault_injector.enabled ≡ false
      → l.state.recording_enabled ≡ true
      → l.state.recorder ≡ some (Recorder.new path)
      → (live_session tools w client clock attempts l).state.recorder ≡ some r
      → config.fault ≡ no_fault
      → config.mode ≡ as_fast
      → is_wanted requested symbol ≡ true
      → l'.state.fault_injector.enabled ≡ false
      → get_depth symbol l'.state ≡ get_depth symbol l.state
      → get symbol l'.state.orderbooks ≡ get symbol l.state.orderbooks
      → let played = playback replay_clock logged joined started stopped config input r.file s in
        (played.1 ≡ true)
        × (get symbol (process_ws_events tools (stamped clock' 0 played.0) l').state.orderbooks
            ≡ get symbol (live_session tools w client clock attempts l).state.orderbooks)
  playback_books symbol clock clock' attempts l l' r path input replay_clock logged joined started
        stopped config s off on new kept plain fast wanted off' depth books =
      let texts = map (λ (x : RecordedFrame). x.raw_frame) r.file in
      let got =
        answers-records tools.float j scaled 101 replay_clock started r.file config plain fast
        ∙ ap (λ t. map some texts ++ t) (sym (append-nil (replicate 101 none))) in
      let ended =
        ap (λ a. replay_recording_internal tools.float w requested logged joined stopped input a s)
          got
        ∙ replay_cut tools.float w requested logged joined stopped input 101 (map some texts) [] s
            (omega arith) (steady_all texts) in
      (
        ap (λ p. p.1) ended,
        played_books tools w client requested symbol clock clock' attempts l l' r path
            (map some texts)
            (playback replay_clock logged joined started stopped config input r.file s).0
            (begin tools.float w requested logged joined input s) off on new kept (given_all texts)
            (ap (λ p. p.0) ended) wanted off' depth books,
      )
