-- ===== src/Replayer/Total.antt =====
-- How much fuel is enough for `next_frame`.
use k_blackbox.Base.{
  ℕ, zero, suc, ◌-◌, ◌≤◌, ◌<◌, ◌≡◌, ◌≢◌, refl, List, [], ◌∷◌, Bool, true, false, Option, none, some,
  String, length, get_elem?, arith, inl, inr, Option-cases, Bool-cases,
}
use k_blackbox.Words.{Time, Float}
use k_blackbox.Json.{Value}
use k_blackbox.Types.{FaultType, drop, reorder, mutate_qty}
use k_blackbox.Replayer.Mutate.{JsonApi}
use k_blackbox.Replayer.Mutate
use k_blackbox.Replayer.Defs.{
  Replayer, Next, out_of_fuel, Strike, strikes, passes, divides_by_zero, strike, struck, look_at,
  look, apply_fault, count_update, next_frame, book_symbol, must_wait, advance, next_after, give,
  at_frame, unless_buffered,
}

pub get_elem?-lt {ℓ} :
    {A : Type ℓ} (xs : List A) (i : ℕ) {a : A} → get_elem? xs i ≡ some a → i < length xs
get_elem?-lt [] i h = absurd (cc)
get_elem?-lt (x ∷ xs) zero h = omega arith
get_elem?-lt (x ∷ xs) (suc i) h = omega (arith, get_elem?-lt xs i h)

-- A frame was looked at: the recording is as it was, and the index has moved by at most one, to a
-- frame that is there.
record Looked {F I : Type 0} (r r' : Replayer F I) : Type 0 where
  same_frames : r'.frames ≡ r.frames
  not_back : r.current_index ≤ r'.current_index
  in_range : r.current_index < length r.frames → r'.current_index < length r.frames

module _ {N F I : Type 0} (f : Float F) (j : JsonApi N F I) where
  apply_fault-Looked :
      (t : FaultType I) (json : Value N) (text : String) (r : Replayer F I)
      → Looked r (apply_fault f j t json text r).2
  unfolding apply_fault
  apply_fault-Looked drop json text r = record {
    same_frames = refl;
    not_back = omega arith;
    in_range = λ h. h;
  }
  apply_fault-Looked reorder json text r = elim (Option-cases (next_after r)) [
    | inl e ↦
        rw (e, apply_fault)
          (record { same_frames = refl; not_back = omega arith; in_range = λ h. h })
    | inr ((ts, next), e) ↦
        let lt = get_elem?-lt r.frames (suc r.current_index) e in
        rw (e, apply_fault)
          (record { same_frames = refl; not_back = omega arith; in_range = λ h. omega arith })
  ]
  apply_fault-Looked (mutate_qty delta) json text r =
      elim (Option-cases (Mutate.mutate_qty f j delta json)) [
        | inl e ↦
            rw (e, apply_fault)
              (record { same_frames = refl; not_back = omega arith; in_range = λ h. h })
        | inr (mutated, e) ↦
            rw (e, apply_fault)
              (record { same_frames = refl; not_back = omega arith; in_range = λ h. h })
      ]

  abbrev AllLooked : Replayer F I → Option (Bool × String × Replayer F I) → Type 0
  AllLooked r none = Unit {0}
  AllLooked r (some (skip, given, r')) = Looked r r'

  struck-AllLooked :
      (s : Strike I) (json : Value N) (text : String) (r : Replayer F I)
      → AllLooked r (struck f j s json text r)
  unfolding struck
  struck-AllLooked (strikes t) json text r = apply_fault-Looked t json text r
  struck-AllLooked passes json text r = record {
    same_frames = refl;
    not_back = omega arith;
    in_range = λ h. h;
  }
  struck-AllLooked divides_by_zero json text r = tt

  counted-AllLooked :
      (symbol : String) (r : Replayer F I) (x : Option (Bool × String × Replayer F I))
      → AllLooked (count_update symbol r).1 x
      → AllLooked r x
  unfolding count_update
  counted-AllLooked symbol r none l = tt
  counted-AllLooked symbol r (some (skip, given, r')) l = record {
    same_frames = l.same_frames;
    not_back = l.not_back;
    in_range = l.in_range;
  }

  look_at-AllLooked :
      (b : Option (Value N × String)) (text : String) (r : Replayer F I)
      → AllLooked r (look_at f j b text r)
  unfolding look_at count_update
  look_at-AllLooked none text r = record {
    same_frames = refl;
    not_back = omega arith;
    in_range = λ h. h;
  }
  look_at-AllLooked (some (json, symbol)) text r = counted-AllLooked symbol r _ (
      struck-AllLooked (strike r.config.fault (count_update symbol r).0) json text
        (count_update symbol r).1)

  look-AllLooked : (text : String) (r : Replayer F I) → AllLooked r (look f j text r)
  unfolding look
  look-AllLooked text r = look_at-AllLooked (book_symbol f j text) text r

module _ {N F I : Type 0} (f : Float F) (j : JsonApi N F I) (scaled : F → Time → Time) where
  -- `again` is total on what comes after the current frame.
  abbrev TotalAfter : ((ℕ → Time) → Replayer F I → Next F I) → (ℕ → Time) → Replayer F I → Type 0
  TotalAfter again clock r =
      (r' : Replayer F I)
      → r'.frames ≡ r.frames
      → r.current_index < r'.current_index
      → r.current_index < length r.frames
      → again clock r' ≢ out_of_fuel

  give-total :
      (again : (ℕ → Time) → Replayer F I → Next F I) (clock : ℕ → Time) (r : Replayer F I)
      (x : Option (Bool × String × Replayer F I))
      → r.current_index < length r.frames
      → AllLooked f j r x
      → TotalAfter again clock r
      → give f j scaled again clock x ≢ out_of_fuel
  give-total again clock r none h l t = λ e. cc
  give-total again clock r (some (true, given, r')) h l t =
      t (advance r') l.same_frames (omega (arith, l.not_back)) h
  give-total again clock r (some (false, given, r')) h l t = λ e. cc

  at_frame-total :
      (again : (ℕ → Time) → Replayer F I → Next F I) (clock : ℕ → Time) (r : Replayer F I)
      (x : Option (Time × String))
      → get_elem? r.frames r.current_index ≡ x
      → TotalAfter again clock r
      → at_frame f j scaled again clock r x ≢ out_of_fuel
  at_frame-total again clock r none e t = λ e. cc
  at_frame-total again clock r (some (ts, text)) e t =
      elim (Bool-cases (must_wait scaled (clock r.current_index) ts r)) [
        | inl w ↦ rw (w, at_frame) (λ e. cc)
        | inr w ↦
            rw (w, at_frame)
              (give-total again clock r (look f j text r) (get_elem?-lt r.frames r.current_index e)
                (look-AllLooked f j text r) t)
      ]

  unless_buffered_total :
      (again : (ℕ → Time) → Replayer F I → Next F I) (clock : ℕ → Time) (r : Replayer F I)
      (b : Option String)
      → TotalAfter again clock r
      → unless_buffered f j scaled again clock r b ≢ out_of_fuel
  unless_buffered_total again clock r (some b) t = λ e. cc
  unless_buffered_total again clock r none t =
      at_frame-total again clock r (get_elem? r.frames r.current_index) refl t

  -- With more fuel than frames are left `next_frame` never runs out of it, whatever the faults.
  pub next_frame-ne-out_of_fuel :
      (fuel : ℕ) (clock : ℕ → Time) (r : Replayer F I)
      → length r.frames - r.current_index < fuel
      → next_frame f j scaled fuel clock r ≢ out_of_fuel
  unfolding next_frame
  next_frame-ne-out_of_fuel zero clock r h = absurd (omega arith)
  next_frame-ne-out_of_fuel (suc fuel) clock r h =
      unless_buffered_total (next_frame f j scaled fuel) clock r r.next_frame_buffer
        (λ r' e le lt. next_frame-ne-out_of_fuel fuel clock r' (ground arith))
