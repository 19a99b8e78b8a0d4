-- ===== src/Playback/Ends.antt =====
-- crates/blackbox-server/src/main.rs: how a recording that is replayed as fast as possible ends.
use k_blackbox.Base.{
  ℕ, zero, suc, ◌*◌, ◌<◌, ◌≡◌, subst, refl, ap, sym, ◌∙◌, List, [], ◌∷◌, Bool, false, length,
  Bool-cases, inl, inr, arith,
}
use k_blackbox.Words.{Time, Float}
use k_blackbox.Types.{
  RecordedFrame, FaultRule, every, once_at, no_fault, FaultType, ReplayConfig, as_fast,
}
use k_blackbox.Cli.{replay_mode}
use k_blackbox.Replayer.Mutate.{JsonApi}
use k_blackbox.Replayer.{
  Replayer, Next, frame, nothing, panic, out_of_fuel, new, start, next_frame, is_done, strike,
}
use k_blackbox.Replayer.Plain.{length-records}
use k_blackbox.Replayer.Progress.{weight, Moves, DividesByZero, next_frame-Moves}
use k_blackbox.Replayer.Total.{next_frame-ne-out_of_fuel}
use k_blackbox.Playback.Offline.{completed, replay_loop, replay_recording}

-- The rule `every 0` is the only one that divides by zero.
not-DividesByZero :
    {I : Type 0}
    → (fault : FaultRule I) → ((n : ℕ) (t : FaultType I) → fault ≡ every n t → 0 < n)
    → ¬ DividesByZero fault
unfolding strike
not-DividesByZero (every n t) h (k, e) = let pos = h n t refl in ground arith
not-DividesByZero (once_at n t) h (k, e) = ground arith
not-DividesByZero no_fault h (k, e) = cc

module _ {N F I : Type 0} (f : Float F) (j : JsonApi N F I) (scaled : F → Time → Time) where
  -- What is left to do after a call that gave `x`.
  turn_ends :
      (turns : ℕ) (clock : ℕ → ℕ → Time) (r : Replayer F I) (x : Next F I)
      → is_done r ≡ false
      → next_frame f j scaled (suc (length r.frames)) (clock turns) r ≡ x
      → Moves r x
      → ¬ DividesByZero r.config.fault
      → ((u : Replayer F I)
          → u.config ≡ r.config
          → weight u < weight r
          → (replay_loop f j scaled turns clock u).1 ≡ completed)
      → (replay_loop f j scaled (suc turns) clock r).1 ≡ completed
  unfolding replay_loop is_done
  turn_ends turns clock r (frame text u) d e (s, h) z rest =
      rw (replay_loop, d, e) (rest u s.same_config h)
  turn_ends turns clock r (nothing u) d e (s, _, h) z rest =
      rw (replay_loop, d, e) (rest u s.same_config (h (ground arith)))
  turn_ends turns clock r panic d e m z rest = absurd (z m)
  turn_ends turns clock r out_of_fuel d e m z rest =
      absurd (
        next_frame-ne-out_of_fuel f j scaled (suc (length r.frames)) (clock turns) r (omega arith)
          e)

  loop_ends :
      (turns : ℕ) (clock : ℕ → ℕ → Time) (r : Replayer F I)
      → r.config.mode ≡ as_fast
      → ¬ DividesByZero r.config.fault
      → weight r < turns
      → (replay_loop f j scaled turns clock r).1 ≡ completed
  unfolding replay_loop
  loop_ends zero clock r q z h = absurd (omega arith)
  loop_ends (suc turns) clock r q z h = elim (Bool-cases (is_done r)) [
    | inl d ↦ rw (replay_loop, d) refl
    | inr d ↦
        turn_ends turns clock r _ d refl
          (next_frame-Moves f j scaled (suc (length r.frames)) (clock turns) r q) z
          (λ u c h'.
            loop_ends turns clock u (ap (λ k. k.mode) c ∙ q)
              (subst (λ k. ¬ DividesByZero k.fault) (sym c) z) (omega arith))
  ]

  started_weight :
      (now : Time) (records : List RecordedFrame) (config : ReplayConfig F I)
      → (weight (start now (new records config)) ≡ 2 * length records)
        × ((start now (new records config)).config ≡ config)
  unfolding new start
  started_weight now [] config = (refl, refl)
  started_weight now (x ∷ records) config = (omega (arith, length-records records), refl)

  -- A recording that is replayed at a speed that is neither one nor positive comes to its end,
  -- whatever the fault, unless that strikes at every 0th update: one turn more than twice the number of
  -- the frames is enough.
  pub replay_recording_ends :
      (is_one is_positive : F → Bool) (turns : ℕ) (clock : ℕ → ℕ → Time) (now : Time)
      (records : List RecordedFrame) (x : F) (fault : FaultRule I)
      → is_one x ≡ false
      → is_positive x ≡ false
      → ((n : ℕ) (t : FaultType I) → fault ≡ every n t → 0 < n)
      → 2 * length records < turns
      → (replay_recording f j scaled is_one is_positive turns clock now records x fault).1
        ≡ completed
  unfolding replay_recording replay_mode
  replay_recording_ends is_one is_positive turns clock now records x fault one pos z h =
      let config : ReplayConfig F I = record {
        mode = replay_mode is_one is_positive x;
        fault = fault;
      } in
      let (w, c) = started_weight now records config in
      loop_ends turns clock (start now (new records config))
        (ap (λ (k : ReplayConfig F I). k.mode) c ∙ rw (one, pos) refl)
        (subst (λ (k : ReplayConfig F I). ¬ DividesByZero k.fault) (sym c)
          (not-DividesByZero fault z))
        (omega (arith, w, h))
