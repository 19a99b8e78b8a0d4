-- ===== src/Playback/Gaps.antt =====
-- crates/blackbox-server/src/main.rs: `replay_recording_internal` takes a wait of more than a hundred
-- turns, about a second, for the end of the recording.
use k_blackbox.Base.{
  ℕ, zero, suc, ◌+◌, ◌<◌, ◌≡◌, refl, ap, List, [], ◌∷◌, ◌++◌, replicate, Bool, true, false,
  Bool-cases, inl, inr, Option, none, some, String, ltb, if◌then◌else◌, arith,
}
use k_blackbox.Words.{Time, Float}
use k_blackbox.State.{AppState, push_event, record_stopped}
use k_blackbox.Playback.{begin, frame_events, play, replay_recording_internal}
use k_blackbox.Client.Connection.{Wire, WsEvent, connected}

-- No hundred and first miss in a row.
abbrev pub is_steady : ℕ → List (Option String) → Bool
is_steady misses [] = true
is_steady misses (some text ∷ answers) = is_steady 0 answers
is_steady misses (none ∷ answers) =
    let rest = is_steady (suc misses) answers in if ltb 100 (suc misses) then false else rest

module _ {D F N : Type 0} (f : Float F) (w : Wire D F N) (requested : List String) where
  -- The events of all the frames that the replayer gives, and the state after them.
  abbrev pub all_events : List (Option String) → AppState D F → List (WsEvent D) × AppState D F
  all_events [] s = ([], s)
  all_events (some text ∷ answers) s =
      let first = frame_events f w requested text s in
      let later = all_events answers first.1 in (first.0 ++ later.0, later.1)
  all_events (none ∷ answers) s = all_events answers s

  play_steady :
      (stopped : Time) (misses : ℕ) (answers : List (Option String)) (s : AppState D F)
      → is_steady misses answers ≡ true
      → play f w requested stopped misses answers s
        ≡ ((all_events answers s).0, false, (all_events answers s).1)
  unfolding play
  play_steady stopped misses [] s h = refl
  play_steady stopped misses (some text ∷ answers) s h =
      let first = frame_events f w requested text s in
      ap (λ p. (first.0 ++ p.0, p.1, p.2)) (play_steady stopped 0 answers first.1 h)
  play_steady stopped misses (none ∷ answers) s h =
      ground (arith, play_steady stopped (suc misses) answers s)

  play-misses :
      (stopped : Time) (n misses : ℕ) (answers : List (Option String)) (s : AppState D F)
      → 100 < misses + n
      → 0 < n
      → play f w requested stopped misses (replicate n none ++ answers) s
        ≡ ([], true, push_event stopped record_stopped s)
  unfolding play
  play-misses stopped zero misses answers s h k = absurd (omega arith)
  play-misses stopped (suc n) misses answers s h k = elim (Bool-cases (ltb 100 (suc misses))) [
    | inl e ↦ rw e refl
    | inr e ↦ rw e (play-misses stopped n (suc misses) answers s (omega arith) (ground arith))
  ]

  play-cut :
      (stopped : Time) (n misses : ℕ) (before after : List (Option String)) (s : AppState D F)
      → 100 < n
      → is_steady misses before ≡ true
      → play f w requested stopped misses (before ++ (replicate n none ++ after)) s
        ≡ ((all_events before s).0, true, push_event stopped record_stopped (all_events before s).1)
  unfolding play
  play-cut stopped n misses [] after s k h =
      play-misses stopped n misses after s (omega arith) (omega arith)
  play-cut stopped n misses (some text ∷ before) after s k h =
      let first = frame_events f w requested text s in
      ap (λ p. (first.0 ++ p.0, p.1, p.2)) (play-cut stopped n 0 before after first.1 k h)
  play-cut stopped n misses (none ∷ before) after s k h =
      ground (arith, play-cut stopped n (suc misses) before after s)

  -- As long as the replayer never answers with nothing more than a hundred times in a row, the loop
  -- sends the events of every frame that it gives, in order, and does not break off.
  pub replay_steady :
      (started joined stopped : Time) (input : String) (answers : List (Option String))
      (s : AppState D F)
      → is_steady 0 answers ≡ true
      → let all = all_events answers (begin f w requested started joined input s) in
        replay_recording_internal f w requested started joined stopped input answers s
        ≡ (connected ∷ all.0, false, all.1)
  unfolding replay_recording_internal
  replay_steady started joined stopped input answers s h =
      ap (λ p. (connected ∷ p.0, p.1, p.2))
        (play_steady stopped 0 answers (begin f w requested started joined input s) h)

  -- At the first longer wait the loop breaks off and logs that the recording has stopped: no frame
  -- that comes after it is played.
  pub replay_cut :
      (started joined stopped : Time) (input : String) (n : ℕ) (before after : List (Option String))
      (s : AppState D F)
      → 100 < n
      → is_steady 0 before ≡ true
      → let all = all_events before (begin f w requested started joined input s) in
        replay_recording_internal f w requested started joined stopped input
          (before ++ (replicate n none ++ after))
          s
        ≡ (connected ∷ all.0, true, push_event stopped record_stopped all.1)
  unfolding replay_recording_internal
  replay_cut started joined stopped input n before after s k h =
      ap (λ p. (connected ∷ p.0, p.1, p.2))
        (play-cut stopped n 0 before after (begin f w requested started joined input s) k h)
