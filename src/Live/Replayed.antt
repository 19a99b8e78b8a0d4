-- ===== src/Live/Replayed.antt =====
-- crates/blackbox-ws/src/client.rs, crates/blackbox-server/src/main.rs and
-- crates/blackbox-core/src/replayer.rs: from the texts that arrive to the recording, and back.
use mathlib.Core.List.{map-append}
use k_blackbox.Base.{
  ℕ, suc, ◌≡◌, refl, ap, ap₂, sym, subst, ◌∙◌, List, [], ◌∷◌, ◌++◌, map, append_assoc, length, Bool,
  true, false, some, String, arith,
}
use k_blackbox.Decimal.{Decimal}
use k_blackbox.Words.{Time}
use k_blackbox.Types.{RecordedFrame, no_fault}
use k_blackbox.Recorder.{Recorder, record_frames, close}
use k_blackbox.Recorder
use k_blackbox.Replayer.Mutate.{JsonApi}
use k_blackbox.Client.Connection.{
  Wire, WsEvent, Output, event, subscribe_to, send_ping, WsClient, Flow, go, ended, failed,
  run_connected, connect_and_run,
}
use k_blackbox.Client.Forwarded.{frame_of, frames, texts, Forwarded, read_loop-Forwarded}
use k_blackbox.Processor.Capture.{Tools, LogClock, LoggedState}
use k_blackbox.Playback.Offline.{completed, replay_recording, replay_recording-record_frames}
use k_blackbox.Live.{Attempt, events, after_attempt, run, stamped, live_session}
use k_blackbox.Live.Tape.{at_time, recorded, process_ws_events-tape}

raw_at_time :
    (clock : LogClock) (xs : List String)
    → map (λ (r : RecordedFrame). r.raw_frame) (map (at_time clock) xs) ≡ xs
raw_at_time clock [] = refl
raw_at_time clock (x ∷ xs) = ap (λ r. x ∷ r) (raw_at_time clock xs)

length_raw :
    (records : List RecordedFrame)
    → length (map (λ (r : RecordedFrame). r.raw_frame) records) ≡ length records
length_raw [] = refl
length_raw (r ∷ records) = ap suc (length_raw records)

module _ {D : Type 0} where
  -- The frames among the events.
  abbrev pub frames_sent : List (WsEvent D) → List String
  frames_sent [] = []
  frames_sent (e ∷ es) = frame_of e ++ frames_sent es

  pub frames_sent-append :
      (es later : List (WsEvent D))
      → frames_sent (es ++ later) ≡ frames_sent es ++ frames_sent later
  frames_sent-append [] later = refl
  frames_sent-append (e ∷ es) later =
      ap (λ r. frame_of e ++ r) (frames_sent-append es later)
      ∙ sym (append_assoc (frame_of e) (frames_sent es) (frames_sent later))

  pub raw-recorded :
      (clock : ℕ → LogClock) (n : ℕ) (es : List (WsEvent D))
      → map (λ (r : RecordedFrame). r.raw_frame) (recorded (stamped clock n es)) ≡ frames_sent es
  unfolding stamped
  raw-recorded clock n [] = refl
  raw-recorded clock n (e ∷ es) =
      map-append (λ (r : RecordedFrame). r.raw_frame) (map (at_time (clock n)) (frame_of e))
        (recorded (stamped clock (suc n) es))
      ∙ ap₂ (λ x y. x ++ y) (raw_at_time (clock n) (frame_of e)) (raw-recorded clock (suc n) es)

pub frames_sent-events :
    {D N : Type 0} (os : List (Output D N)) → frames_sent (events os) ≡ frames os
frames_sent-events [] = refl
frames_sent-events (event e ∷ os) = ap (λ r. frame_of e ++ r) (frames_sent-events os)
frames_sent-events (subscribe_to v ∷ os) = frames_sent-events os
frames_sent-events (send_ping v ∷ os) = frames_sent-events os

-- After a connection that goes on nothing more is heard, as yet.
abbrev pub HeardLater : {D : Type 0} → Flow D → (List String → Type 0) → List String → Type 0
HeardLater (go c) Later heard = heard ≡ []
HeardLater ended Later heard = Later heard
HeardLater failed Later heard = Later heard

module _ {D F N : Type 0} (w : Wire D F N) (client : WsClient) where
  -- What each connection passes on, one after the other: all of its texts while it goes on, and the
  -- first ones if it ended or failed; complaints about the rate do not count.
  abbrev pub Heard : List Attempt → List String → Type 0
  Heard [] heard = heard ≡ []
  Heard (a ∷ later) heard =
      let flow = (connect_and_run w client a.reached a.accepted a.now a.turns).1 in
      (here : List String) × (rest : List String) × (heard ≡ here ++ rest)
      × Forwarded flow here (texts a.turns)
      × HeardLater flow (Heard later) rest

  connect_and_run-Forwarded :
      (a : Attempt)
      → let did = connect_and_run w client a.reached a.accepted a.now a.turns in
        Forwarded did.1 (frames did.0) (texts a.turns)
  unfolding connect_and_run run_connected
  connect_and_run-Forwarded a = by_cases a.reached a.accepted
    where
      by_cases :
          (reached accepted : Bool)
          → let did = connect_and_run w client reached accepted a.now a.turns in
            Forwarded did.1 (frames did.0) (texts a.turns)
      by_cases false accepted = (texts a.turns, refl)
      by_cases true false = (texts a.turns, refl)
      by_cases true true = read_loop-Forwarded w client a.turns _

  later-Heard :
      (flow : Flow D) (later : List Attempt)
      → Heard later (frames_sent (run w client later))
      → HeardLater flow (Heard later) (frames_sent (after_attempt flow (run w client later)))
  later-Heard (go c) later h = refl
  later-Heard ended later h = h
  later-Heard failed later h = h

  pub run-Heard : (attempts : List Attempt) → Heard attempts (frames_sent (run w client attempts))
  unfolding run
  run-Heard [] = refl
  run-Heard (a ∷ later) =
      let (os, flow) = connect_and_run w client a.reached a.accepted a.now a.turns in
      (
        frames os,
        frames_sent (after_attempt flow (run w client later)),
        frames_sent-append (events os) (after_attempt flow (run w client later))
            ∙ ap (λ r. r ++ frames_sent (after_attempt flow (run w client later)))
                (frames_sent-events os),
        connect_and_run-Forwarded a,
        later-Heard flow later (run-Heard later),
      )

module _ {D F N : Type 0} ⦃d : Decimal D⦄ (tools : Tools D F N) (w : Wire D F N)
    (client : WsClient) where
  -- The recorder after a live session, if the recording is on.
  pub live_session-recorder :
      (clock : ℕ → LogClock) (attempts : List Attempt) (l : LoggedState D F N) (r : Recorder)
      → l.state.recording_enabled ≡ true
      → l.state.recorder ≡ some r
      → (live_session tools w client clock attempts l).state.recorder
        ≡ some (record_frames (recorded (stamped clock 0 (run w client attempts))) r)
  unfolding live_session
  live_session-recorder clock attempts l r on new =
      ap (λ t. t.1)
        (process_ws_events-tape tools (stamped clock 0 (run w client attempts)) l r
          (ap₂ (λ a b. (a, b)) on new))

module _ {D F N I : Type 0} ⦃d : Decimal D⦄ (tools : Tools D F N) (w : Wire D F N)
    (client : WsClient) (j : JsonApi N F I) (scaled : F → Time → Time) where
  -- A live session that starts with a new recording, and in which nobody switches that off, records
  -- what its connections hear: of each connection the texts that arrive, once each and in their order,
  -- up to the last one while it goes on, or up to some text if it ended or failed. Played back without
  -- faults, at a speed that is neither one nor positive, the closed recording gives just these texts,
  -- and then the task ends.
  pub live_session_replayed :
      (clock : ℕ → LogClock) (attempts : List Attempt) (l : LoggedState D F N) (path : String)
      (is_one is_positive : F → Bool) (replay_clock : ℕ → ℕ → Time) (now : Time) (x : F)
      → l.state.recording_enabled ≡ true
      → l.state.recorder ≡ some (Recorder.new path)
      → is_one x ≡ false
      → is_positive x ≡ false
      → (r : Recorder) × (heard : List String) × ((live_session tools w client clock attempts
            l).state.recorder
          ≡ some r)
        × (replay_recording tools.float j scaled is_one is_positive
              (suc (length heard))
              replay_clock
              now
              (close r).file
              x
              no_fault
            ≡ (heard, completed))
        × Heard w client attempts heard
  unfolding live_session record_frames
  live_session_replayed clock attempts l path is_one is_positive replay_clock now x on new one pos =
      let es = stamped clock 0 (run w client attempts) in
      let records = recorded es in
      let raw = raw-recorded clock 0 (run w client attempts) in
      (
        record_frames records (Recorder.new path),
        frames_sent (run w client attempts),
        live_session-recorder tools w client clock attempts l (Recorder.new path) on new,
        subst
            (λ heard.
              replay_recording tools.float j scaled is_one is_positive (suc (length heard))
                replay_clock now (close (record_frames records (Recorder.new path))).file x no_fault
              ≡ (heard, completed))
            raw
            (replay_recording-record_frames tools.float j scaled is_one is_positive _ replay_clock
              now path records [] x no_fault refl one pos (omega (arith, length_raw records))),
        run-Heard w client attempts,
      )
