-- ===== src/Playback/Answers.antt =====
-- crates/blackbox-server/src/main.rs: the answers that the loop of `replay_recording_internal` gets from
-- its replayer.
use k_blackbox.Base.{
  ℕ, zero, suc, ◌+◌, ◌≤◌, ◌≡◌, refl, ap, ap₂, ◌∙◌, List, [], ◌∷◌, ◌++◌, map, replicate, length,
  get_elem?, drop, Option, none, some, String, arith,
}
use k_blackbox.Words.{Time, Float}
use k_blackbox.Types.{RecordedFrame, no_fault, as_fast, ReplayConfig}
use k_blackbox.Replayer.Mutate.{JsonApi}
use k_blackbox.Replayer.{
  Replayer, frame, nothing, panic, out_of_fuel, new, start, next_frame, advance, unless_buffered,
  at_frame,
}
use k_blackbox.Replayer.Plain.{
  IsPlain, advance_plain, next_frame_plain, get_elem?-drop, drop-suc, drop_end, texts_of, timed,
  length-records, texts-records,
}
use k_blackbox.Playback.Offline.{started_plain}

module _ {N F I : Type 0} (f : Float F) (j : JsonApi N F I) (scaled : F → Time → Time) where
  -- The answers of so many turns; `clock n` is what is read in the turn before the last `n`. A panic
  -- ends them.
  unfoldable pub answers : ℕ → (ℕ → ℕ → Time) → Replayer F I → List (Option String)
  answers zero clock r = []
  answers (suc turns) clock r =
      elim (next_frame f j scaled (suc (length r.frames)) (clock turns) r) [
        | frame text r' ↦ some text ∷ answers turns clock r'
        | nothing r' ↦ none ∷ answers turns clock r'
        | panic ↦ []
        | out_of_fuel ↦ []
      ]

  next_frame_end :
      (fuel : ℕ) (clock : ℕ → Time) (r : Replayer F I)
      → IsPlain f j scaled r
      → get_elem? r.frames r.current_index ≡ none
      → next_frame f j scaled (suc fuel) clock r ≡ nothing r
  unfolding next_frame
  next_frame_end fuel clock r p e =
      ap (unless_buffered f j scaled (next_frame f j scaled fuel) clock r) p.not_buffered
      ∙ ap (at_frame f j scaled (next_frame f j scaled fuel) clock r) e

  get_elem?-end : {A : Type 0} (xs : List A) (i : ℕ) → length xs ≤ i → get_elem? xs i ≡ none
  get_elem?-end [] zero h = refl
  get_elem?-end [] (suc i) h = refl
  get_elem?-end (x ∷ xs) zero h = absurd (omega arith)
  get_elem?-end (x ∷ xs) (suc i) h = get_elem?-end xs i (omega arith)

  answers_end :
      (k : ℕ) (clock : ℕ → ℕ → Time) (r : Replayer F I)
      → IsPlain f j scaled r
      → get_elem? r.frames r.current_index ≡ none
      → answers k clock r ≡ replicate k none
  unfolding answers
  answers_end zero clock r p e = refl
  answers_end (suc k) clock r p e =
      rw (next_frame_end (length r.frames) (clock k) r p e, answers)
        (ap (λ l. none ∷ l) (answers_end k clock r p e))

  answers_plain :
      (xs : List (Time × String)) (n k : ℕ) (clock : ℕ → ℕ → Time) (r : Replayer F I)
      → n ≡ length xs + k
      → IsPlain f j scaled r
      → drop r.current_index r.frames ≡ xs
      → answers n clock r ≡ map some (texts_of xs) ++ replicate k none
  unfolding answers
  answers_plain [] n k clock r h p e =
      let same : n ≡ k = omega arith in
      answers_end n clock r p
        (get_elem?-end r.frames r.current_index (drop_end r.current_index r.frames e))
      ∙ ap (λ k. replicate k none) same
  answers_plain ((ts, text) ∷ xs) zero k clock r h p e = absurd (omega arith)
  answers_plain ((ts, text) ∷ xs) (suc n) k clock r h p e =
      let at = get_elem?-drop r.current_index r.frames e in
      let (r', next, g) = next_frame_plain f j scaled (length r.frames) (clock n) r ts text p at in
      let rest : drop (suc r'.current_index) r'.frames ≡ xs =
        ap₂ (λ i (l : List (Time × String)). drop (suc i) l) g.same_index g.same_frames
        ∙ drop-suc r.current_index r.frames e in
      rw (next, answers)
        (ap (λ l. some text ∷ l)
          (answers_plain xs n k clock (advance r') (omega arith)
            (advance_plain f j scaled r' g.plain) rest))

  -- Without faults and as fast as possible a replayer that has just started gives every frame of the
  -- recording, and then nothing.
  pub answers-records :
      (k : ℕ) (clock : ℕ → ℕ → Time) (now : Time) (records : List RecordedFrame)
      (config : ReplayConfig F I)
      → config.fault ≡ no_fault
      → config.mode ≡ as_fast
      → answers (length records + k) clock (start now (new records config))
        ≡ map some (map (λ r. r.raw_frame) records) ++ replicate k none
  answers-records k clock now records config a b =
      let (p, e) = started_plain f j scaled now records config a b in
      answers_plain (map timed records) (length records + k) k clock
        (start now (new records config)) (omega (arith, length-records records)) p e
      ∙ ap (λ l. map some l ++ replicate k none) (texts-records records)
