-- ===== src/Tests/Replays.antt =====
-- The theorems on the replayer and the recorder, at concrete inputs.
use k_blackbox.Base.{
  ℕ, ◌+◌, ◌*◌, ◌/◌, ◌≡◌, ◌<◌, refl, List, [], ◌∷◌, map, leb, false, none, some, arith,
}
use k_blackbox.Words.{Time}
use k_blackbox.DashMap.{get_or, insert}
use k_blackbox.DashMap
use k_blackbox.Json.{
  Value, string, array, object, nil, cons, end, field, get, find, as_str, as_array, first,
}
use k_blackbox.Types.{
  RecordedFrame, ReplayConfig, as_fast, no_fault, every, once_at, FaultType, drop, reorder,
}
use k_blackbox.Recorder.{record_frames, close}
use k_blackbox.Recorder
use k_blackbox.Replayer.Mutate.{JsonApi}
use k_blackbox.Replayer.{
  Replayer, frame, is_done, strike, count_update, book_symbol, must_wait, next_frame,
}
use k_blackbox.Playback.Offline.{completed, replay_recording, replay_recording-record_frames}
use k_blackbox.Playback.Ends.{replay_recording_ends}
use k_blackbox.Replayer.Reorder.{Struck, next_frame-reorder}
use k_blackbox.Tests.Values.{thousandths}

-- Every text is read as a book message of one symbol.
abbrev message : Value ℕ
message = object (
    field "channel" (string "book")
      (field "data" (array (cons (object (field "symbol" (string "BTC/USD") end)) nil)) end))

abbrev pub api : JsonApi ℕ ℕ ℕ
api = record {
  from_str = λ s. some message;
  to_string = λ v. some "written";
  as_f64 = λ n. some n;
  from_f64 = λ f. f;
  parse_f64 = λ s. some 1000;
  format_8 = λ f. "0.5";
  of_i32 = λ n. n * 1000;
  increment = 1;
}

abbrev pub scaled : ℕ → Time → Time
scaled speed offset = offset * 1000 / speed

abbrev records : List RecordedFrame
records =
    record { ts = 10; raw_frame = "one"; decoded_event = none }
    ∷ record { ts = 20; raw_frame = "two"; decoded_event = none }
    ∷ []

abbrev plain_config : ReplayConfig ℕ ℕ
plain_config = record { mode = as_fast; fault = no_fault }

abbrev clock : ℕ → Time
clock i = 100 + i

-- No speed is one and none is positive.
replay_recording-record_frames_example :
    replay_recording thousandths api scaled
      (λ x. false)
      (λ x. false)
      3
      (λ n. clock)
      50
      (record_frames records (close (record_frames records (Recorder.new "frames.ndjson")))).file
      0
      no_fault
    ≡ (map (λ x. x.raw_frame) records, completed)
replay_recording-record_frames_example =
    replay_recording-record_frames thousandths api scaled (λ x. false) (λ x. false) 3 (λ n. clock)
      50 "frames.ndjson" records records 0 no_fault refl refl refl (omega arith)

two_positive : (n : ℕ) (t : FaultType ℕ) → every 2 drop ≡ every n t → 0 < n
two_positive n t e = let k : 2 ≡ n = cc in omega (arith, k)

replay_recording_ends_example :
    (replay_recording thousandths api scaled
      (λ x. false)
      (λ x. false)
      5
      (λ n. clock)
      50
      records
      0
      (every 2 drop)).1
    ≡ completed
replay_recording_ends_example =
    replay_recording_ends thousandths api scaled (λ x. false) (λ x. false) 5 (λ n. clock) 50 records
      0 (every 2 drop) refl refl two_positive (omega arith)

-- The first update is to be dropped, or to be swapped with the second.
abbrev replayer : FaultType ℕ → Replayer ℕ ℕ
replayer fault = record {
  frames = (10, "one") ∷ (20, "two") ∷ [];
  current_index = 0;
  start_time = some 50;
  first_frame_time = some 10;
  config = record { mode = as_fast; fault = once_at 1 fault };
  book_update_count = [];
  fault_applied = false;
  next_frame_buffer = none;
}

reorder_Struck : Struck thousandths api scaled clock (replayer reorder) reorder "one"
unfolding must_wait book_symbol strike count_update get find as_str as_array first get_or
    DashMap.get
reorder_Struck = record {
  ts = 10;
  json = message;
  symbol = "BTC/USD";
  not_buffered = refl;
  at_index = refl;
  due = refl;
  is_book = refl;
  struck_now = refl;
}

next_frame-reorder_example :
    (between : Replayer ℕ ℕ) × (after : Replayer ℕ ℕ) × (next_frame thousandths api scaled 3 clock
        (replayer reorder)
      ≡ frame "two" between)
    × (next_frame thousandths api scaled 3 clock between ≡ frame "one" after)
    × (after.current_index ≡ 2)
    × (is_done between ≡ leb 2 2)
next_frame-reorder_example =
    next_frame-reorder thousandths api scaled 2 clock (replayer reorder) "one" 20 "two"
      reorder_Struck refl
