-- ===== src/Playback/Offline.antt =====
-- crates/blackbox-server/src/main.rs: `replay_recording` and `replay_incident_bundle`, whose task takes
-- frames from the replayer until it is done. The HTTP server beside it is outside the model.
use k_blackbox.Base.{
  ℕ, zero, suc, ◌<◌, ◌≡◌, refl, ap, ap₂, ◌∙◌, List, [], ◌∷◌, map, Bool, true, false, String, length,
  leb, drop, le→leb, arith,
}
use k_blackbox.Words.{Time, Float}
use k_blackbox.Types.{RecordedFrame, FaultRule, no_fault, ReplayConfig, as_fast}
use k_blackbox.Cli.{replay_mode}
use k_blackbox.Recorder.{record_frames, close, file-close}
use k_blackbox.Recorder
use k_blackbox.Replayer.Mutate.{JsonApi}
use k_blackbox.Replayer.{
  Replayer, frame, nothing, panic, out_of_fuel, new, start, next_frame, is_done, advance,
}
use k_blackbox.Replayer.Plain.{
  IsPlain, advance_plain, next_frame_plain, get_elem?-drop, drop-suc, drop-lt, drop_end, texts_of,
  timed, length-records, texts-records,
}

-- How the task ends: the replay is done, a panic, or more turns than were allowed.
pub data Ending : Type 0 where
  completed panicked unfinished : Ending

module _ {N F I : Type 0} (f : Float F) (j : JsonApi N F I) (scaled : F → Time → Time) where
  -- The loop: the frames that it hands to `parse_frame`, whose result it only logs, and the ending.
  -- It makes at most `turns` turns; `clock n` is what is read in the turn before the last `n`.
  unfoldable pub replay_loop : ℕ → (ℕ → ℕ → Time) → Replayer F I → List String × Ending
  replay_loop zero clock r = ([], unfinished)
  replay_loop (suc turns) clock r = elim (is_done r) [
    | true ↦ ([], completed)
    | false ↦ elim (next_frame f j scaled (suc (length r.frames)) (clock turns) r) [
      | frame text r' ↦ let later = replay_loop turns clock r' in (text ∷ later.0, later.1)
      | nothing r' ↦ replay_loop turns clock r'
      | panic ↦ ([], panicked)
      | out_of_fuel ↦ ([], unfinished)
    ]
  ]

  -- `records` are those of the file, `x` is the speed, and the replay starts at `now`.
  unfoldable pub replay_recording :
      (F → Bool)
      → (F → Bool)
      → ℕ
      → (ℕ → ℕ → Time)
      → Time
      → List RecordedFrame
      → F
      → FaultRule I
      → List String × Ending
  unfolding replay_loop
  replay_recording is_one is_positive turns clock now records x fault =
      let config : ReplayConfig F I = record {
        mode = replay_mode is_one is_positive x;
        fault = fault;
      } in
      replay_loop turns clock (start now (new records config))

  -- `records` are those of the file `frames.ndjson` of the bundle.
  unfoldable pub replay_incident_bundle :
      (F → Bool)
      → (F → Bool)
      → ℕ
      → (ℕ → ℕ → Time)
      → Time
      → List RecordedFrame
      → F
      → List String × Ending
  unfolding replay_recording
  replay_incident_bundle is_one is_positive turns clock now records x =
      replay_recording is_one is_positive turns clock now records x no_fault

  -- One turn of a plain replayer that has a frame left.
  loop_step :
      (turns : ℕ) (clock : ℕ → ℕ → Time) (r r' : Replayer F I) (text : String)
      → is_done r ≡ false
      → next_frame f j scaled (suc (length r.frames)) (clock turns) r ≡ frame text r'
      → replay_loop (suc turns) clock r
        ≡ (text ∷ (replay_loop turns clock r').0, (replay_loop turns clock r').1)
  unfolding replay_loop
  loop_step turns clock r r' text d e = rw (d, e, replay_loop)

  loop_plain :
      (xs : List (Time × String)) (turns : ℕ) (clock : ℕ → ℕ → Time) (r : Replayer F I)
      → IsPlain f j scaled r
      → drop r.current_index r.frames ≡ xs
      → length xs < turns
      → replay_loop turns clock r ≡ (texts_of xs, completed)
  unfolding replay_loop is_done
  loop_plain xs zero clock r p e h = absurd (omega arith)
  loop_plain [] (suc turns) clock r p e h =
      rw (replay_loop, le→leb _ _ (drop_end r.current_index r.frames e)) refl
  loop_plain ((ts, text) ∷ xs) (suc turns) clock r p e h =
      let at = get_elem?-drop r.current_index r.frames e in
      let left = drop-lt r.current_index r.frames e in
      let more : leb (length r.frames) r.current_index ≡ false = ground (arith) in
      let (r', n, g) = next_frame_plain f j scaled (length r.frames) (clock turns) r ts text p at in
      let rest : drop (suc r'.current_index) r'.frames ≡ xs =
        ap₂ (λ i (l : List (Time × String)). drop (suc i) l) g.same_index g.same_frames
        ∙ drop-suc r.current_index r.frames e in
      loop_step turns clock r (advance r') text more n
      ∙ ap (λ y. (text ∷ y.0, y.1))
          (loop_plain xs turns clock (advance r') (advance_plain f j scaled r' g.plain) rest
            (omega arith))

  -- A replayer that has just been started is plain, with all of its frames left.
  pub started_plain :
      (now : Time) (records : List RecordedFrame) (config : ReplayConfig F I)
      → config.fault ≡ no_fault
      → config.mode ≡ as_fast
      → IsPlain f j scaled (start now (new records config))
        × (drop
              (start now (new records config)).current_index
              (start now (new records config)).frames
            ≡ map timed records)
  unfolding new start
  started_plain now [] config a b =
      (record { no_faults = a; no_waits = b; not_buffered = refl }, refl)
  started_plain now (y ∷ records) config a b =
      (record { no_faults = a; no_waits = b; not_buffered = refl }, refl)

  -- A recording that is replayed without faults, at a speed that is neither one nor positive, is handed
  -- on whole, each frame once and in its order, and then the task ends. One turn more than there are
  -- frames is enough.
  pub replay_recording_completes :
      (is_one is_positive : F → Bool) (turns : ℕ) (clock : ℕ → ℕ → Time) (now : Time)
      (records : List RecordedFrame) (x : F) (fault : FaultRule I)
      → fault ≡ no_fault
      → is_one x ≡ false
      → is_positive x ≡ false
      → length records < turns
      → replay_recording is_one is_positive turns clock now records x fault
        ≡ (map (λ r. r.raw_frame) records, completed)
  unfolding replay_recording replay_mode
  replay_recording_completes is_one is_positive turns clock now records x fault none one pos h =
      let config : ReplayConfig F I = record {
        mode = replay_mode is_one is_positive x;
        fault = fault;
      } in
      let (p, e) = started_plain now records config none (rw (one, pos) refl) in
      loop_plain (map timed records) turns clock (start now (new records config)) p e
        (omega (arith, h, length-records records))
      ∙ ap (λ texts. (texts, completed)) (texts-records records)

  -- What was recorded before the recorder was closed is played back whole, each frame once and in its
  -- order, and then the task ends. This is without faults, at a speed that is neither one nor positive;
  -- one turn more than there are frames is enough.
  pub replay_recording-record_frames :
      (is_one is_positive : F → Bool) (turns : ℕ) (clock : ℕ → ℕ → Time) (now : Time)
      (path : String) (records late : List RecordedFrame) (x : F) (fault : FaultRule I)
      → fault ≡ no_fault
      → is_one x ≡ false
      → is_positive x ≡ false
      → length records < turns
      → replay_recording is_one is_positive turns clock now
          (record_frames late (close (record_frames records (Recorder.new path)))).file
          x
          fault
        ≡ (map (λ r. r.raw_frame) records, completed)
  replay_recording-record_frames is_one is_positive turns clock now path records late x fault none
        one pos h =
      ap (λ file. replay_recording is_one is_positive turns clock now file x fault)
        (file-close path records late)
      ∙ replay_recording_completes is_one is_positive turns clock now records x fault none one pos h
