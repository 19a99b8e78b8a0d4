-- ===== src/Live/Rerun.antt =====
-- crates/blackbox-server/src/main.rs: the events that playing a recording sends into the loop with
-- logging.
use k_blackbox.Base.{
  ℕ, ◌≡◌, refl, ap, ap₂, sym, ◌∙◌, List, [], ◌∷◌, map, Bool-cases, inl, inr, true, false, Option,
  none, some, String, str_eq, eq_iff,
}
use k_blackbox.Decimal.{Decimal}
use k_blackbox.Words.{Float}
use k_blackbox.DashMap.{Map, get}
use k_blackbox.Types.{BookData, InstrumentInfo, InstrumentMessage, RecordedFrame}
use k_blackbox.Orderbook.{Orderbook}
use k_blackbox.Recorder.{Recorder, record_frames, record_frames-open}
use k_blackbox.Recorder
use k_blackbox.Parser.{
  ParsedFrame, WsFrame, ack, book, instrument, status, heartbeat, ok, err, parse_frame,
}
use k_blackbox.Parser
use k_blackbox.State.{AppState, get_depth}
use k_blackbox.Client.Connection.{Wire, WsEvent, connected, WsClient}
use k_blackbox.Processor.Books.{book_step, book_after}
use k_blackbox.Processor.Capture.{Tools, LogClock, LoggedState}
use k_blackbox.Processor.Logged.{process_ws_events}
use k_blackbox.Playback.{
  is_wanted, unless_empty, instrument_events, book_event, wanted_books, events_of, frame_events,
}
use k_blackbox.Playback.Gaps.{all_events}
use k_blackbox.Live.{Attempt, run, stamped, live_session}
use k_blackbox.Live.Replayed.{frames_sent, raw-recorded, live_session-recorder}
use k_blackbox.Live.Tape.{recorded}
use k_blackbox.Live.Texts.{data_step, data_steps, frame_step, texts_after, book_after-append}
use k_blackbox.Live.Books.{stamped-books, run-books}

-- The frames among the answers of the replayer.
abbrev pub given : List (Option String) → List String
given [] = []
given (none ∷ answers) = given answers
given (some text ∷ answers) = text ∷ given answers

module _ {D F N : Type 0} ⦃d : Decimal D⦄ (f : Float F) (w : Wire D F N) (requested : List String)
    (depth : ℕ) (symbol : String) (wanted : is_wanted requested symbol ≡ true) where
  book_event-step :
      (msg_type : String) (b : BookData N) (o : Option (Orderbook D))
      → book_step depth symbol (book_event f w requested msg_type b) o
        ≡ data_step w depth symbol msg_type b o
  unfolding book_event
  book_event-step msg_type b o = elim (Bool-cases (str_eq msg_type "snapshot")) [
    | inl e ↦ rw e refl
    | inr e ↦ rw e refl
  ]

  -- An entry of a symbol that is not wanted is not one of `symbol`.
  unwanted-step :
      (msg_type : String) (b : BookData N) (o : Option (Orderbook D))
      → is_wanted requested b.symbol ≡ false
      → data_step w depth symbol msg_type b o ≡ o
  unwanted-step msg_type b o e = elim (Bool-cases (str_eq b.symbol symbol)) [
    | inl k ↦
        let p : b.symbol ≡ symbol = (eq_iff b.symbol symbol).0 k in
        let q : false ≡ true = sym e ∙ ap (is_wanted requested) p ∙ wanted in absurd (cc)
    | inr k ↦ rw k refl
  ]

  wanted_books-steps :
      (msg_type : String) (bs : List (BookData N)) (o : Option (Orderbook D))
      → book_after depth symbol (wanted_books f w requested msg_type bs) o
        ≡ data_steps w depth symbol msg_type bs o
  unfolding wanted_books book_after
  wanted_books-steps msg_type [] o = refl
  wanted_books-steps msg_type (b ∷ bs) o = elim (Bool-cases (is_wanted requested b.symbol)) [
    | inl e ↦ rw e (
        wanted_books-steps msg_type bs _
        ∙ ap (data_steps w depth symbol msg_type bs) (book_event-step msg_type b o))
    | inr e ↦ rw e (
        wanted_books-steps msg_type bs o
        ∙ ap (data_steps w depth symbol msg_type bs) (sym (unwanted-step msg_type b o e)))
  ]

  unless_empty-books :
      (m : Map (InstrumentInfo D)) (o : Option (Orderbook D))
      → book_after depth symbol (unless_empty f w requested m) o ≡ o
  unfolding book_after
  unless_empty-books [] o = refl
  unless_empty-books (x ∷ m) o = refl

  instrument_events-books :
      (msg : InstrumentMessage) (s : AppState D F) (o : Option (Orderbook D))
      → book_after depth symbol (instrument_events f w requested msg s).0 o ≡ o
  unfolding instrument_events book_after
  instrument_events-books msg s o = elim (Bool-cases (str_eq msg.msg_type "snapshot")) [
    | inl e ↦ rw e (unless_empty-books _ o)
    | inr e ↦ rw e refl
  ]

  events_of-step :
      (p : ParsedFrame N) (s : AppState D F) (o : Option (Orderbook D))
      → book_after depth symbol (events_of f w requested p s).0 o ≡ frame_step w depth symbol p o
  unfolding events_of book_after
  events_of-step (ok (instrument msg)) s o = instrument_events-books msg s o
  events_of-step (ok (book msg)) s o = wanted_books-steps msg.msg_type msg.content o
  events_of-step (ok (heartbeat m)) s o = refl
  events_of-step (ok (Parser.ping m)) s o = refl
  events_of-step (ok (status m)) s o = refl
  events_of-step (ok (ack a)) s o = refl
  events_of-step (err e) s o = refl

  all_events-books :
      (answers : List (Option String)) (s : AppState D F) (o : Option (Orderbook D))
      → book_after depth symbol (all_events f w requested answers s).0 o
        ≡ texts_after w depth symbol (given answers) o
  unfolding frame_events book_after texts_after
  all_events-books [] s o = refl
  all_events-books (none ∷ answers) s o = all_events-books answers s o
  all_events-books (some text ∷ answers) s o =
      let first = events_of f w requested (parse_frame w.messages text) s in
      book_after-append w depth symbol first.0 (all_events f w requested answers first.1).0 o
      ∙ all_events-books answers first.1 _
      ∙ ap (texts_after w depth symbol (given answers))
          (events_of-step (parse_frame w.messages text) s o)

module _ {D F N : Type 0} ⦃d : Decimal D⦄ (tools : Tools D F N) (w : Wire D F N) (client : WsClient)
    (requested : List String) (symbol : String) where
  recorded_texts :
      (clock : ℕ → LogClock) (attempts : List Attempt) (l : LoggedState D F N) (r : Recorder)
      (path : String)
      → l.state.recording_enabled ≡ true
      → l.state.recorder ≡ some (Recorder.new path)
      → (live_session tools w client clock attempts l).state.recorder ≡ some r
      → map (λ (x : RecordedFrame). x.raw_frame) r.file ≡ frames_sent (run w client attempts)
  unfolding Recorder.new
  recorded_texts clock attempts l r path on new kept =
      let records = recorded (stamped clock 0 (run w client attempts)) in
      let e : some r ≡ some (record_frames records (Recorder.new path)) =
        sym kept
        ∙ live_session-recorder tools w client clock attempts l (Recorder.new path) on new in
      let same : r ≡ record_frames records (Recorder.new path) = cc in
      ap (λ (x : Recorder). map (λ (x : RecordedFrame). x.raw_frame) x.file) same
      ∙ ap (map (λ (x : RecordedFrame). x.raw_frame))
          (record_frames-open records (Recorder.new path) refl)
      ∙ raw-recorded clock 0 (run w client attempts)

  -- The events of a playback, once the replayer's answers are those of the recording.
  pub played_books :
      (clock clock' : ℕ → LogClock) (attempts : List Attempt) (l l' : LoggedState D F N)
      (r : Recorder) (path : String) (answers : List (Option String)) (events : List (WsEvent D))
      (s : AppState D F)
      → l.state.fault_injector.enabled ≡ false
      → l.state.recording_enabled ≡ true
      → l.state.recorder ≡ some (Recorder.new path)
      → (live_session tools w client clock attempts l).state.recorder ≡ some r
      → given answers ≡ map (λ x. x.raw_frame) r.file
      → events ≡ connected ∷ (all_events tools.float w requested answers s).0
      → is_wanted requested symbol ≡ true
      → l'.state.fault_injector.enabled ≡ false
      → get_depth symbol l'.state ≡ get_depth symbol l.state
      → get symbol l'.state.orderbooks ≡ get symbol l.state.orderbooks
      → get symbol (process_ws_events tools (stamped clock' 0 events) l').state.orderbooks
        ≡ get symbol (live_session tools w client clock attempts l).state.orderbooks
  unfolding live_session book_after
  played_books clock clock' attempts l l' r path answers events s off on new kept same sent wanted
        off' depth books =
      let deep = get_depth symbol l.state in
      let deep' = get_depth symbol l'.state in
      let old = get symbol l.state.orderbooks in
      let old' = get symbol l'.state.orderbooks in
      stamped-books tools symbol clock' events l' off'
      ∙ ap (λ es. book_after deep' symbol es old') sent
      ∙ all_events-books tools.float w requested deep' symbol wanted answers s old'
      ∙ ap₂ (λ n b. texts_after w n symbol (given answers) b) depth books
      ∙ ap (λ ts. texts_after w deep symbol ts old)
          (same ∙ recorded_texts clock attempts l r path on new kept)
      ∙ sym (run-books w deep symbol client attempts old)
      ∙ sym (stamped-books tools symbol clock (run w client attempts) l off)
