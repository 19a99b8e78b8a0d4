-- ===== src/Replayer/Progress.antt =====
-- How a call of `next_frame` brings the replayer nearer to its end.
use k_blackbox.Base.{
  ℕ, zero, suc, ◌+◌, ◌-◌, ◌*◌, ◌≤◌, ◌<◌, ◌≡◌, refl, ap, sym, ◌∙◌, List, [], ◌∷◌, Bool, true, false,
  Option, none, some, String, length, get_elem?, arith, inl, inr, Option-cases,
}
use k_blackbox.Words.{Time, Float}
use k_blackbox.Json.{Value}
use k_blackbox.Types.{FaultType, FaultRule, drop, reorder, mutate_qty, as_fast}
use k_blackbox.Replayer.Mutate.{JsonApi}
use k_blackbox.Replayer.Mutate
use k_blackbox.Replayer.Defs.{
  Replayer, Next, frame, nothing, panic, out_of_fuel, Strike, strikes, passes, divides_by_zero,
  strike, struck, look_at, look, apply_fault, count_update, next_frame, book_symbol, must_wait,
  wait_for, advance, next_after, give, at_frame, unless_buffered,
}
use k_blackbox.Replayer.Total.{get_elem?-lt}

get_elem?-ge {ℓ} : {A : Type ℓ} (xs : List A) (i : ℕ) → get_elem? xs i ≡ none → length xs ≤ i
get_elem?-ge [] i h = omega arith
get_elem?-ge (x ∷ xs) zero h = absurd (cc)
get_elem?-ge (x ∷ xs) (suc i) h = omega (arith, get_elem?-ge xs i h)

-- Two for each frame that is left, and one for a frame that is held back.
abbrev pub pending : Option String → ℕ
pending none = 0
pending (some text) = 1

abbrev pub weight : {F I : Type 0} → Replayer F I → ℕ
weight r = 2 * (length r.frames - r.current_index) + pending r.next_frame_buffer

-- Some update makes the fault rule divide by zero.
abbrev pub DividesByZero : {I : Type 0} → FaultRule I → Type 0
DividesByZero fault = (n : ℕ) × (strike fault n ≡ divides_by_zero)

-- A frame was looked at, and when the index moves on there is less to do.
record Lighter {F I : Type 0} (r r' : Replayer F I) : Type 0 where
  same_config : r'.config ≡ r.config
  same_frames : r'.frames ≡ r.frames
  lighter : r.current_index < length r.frames → weight (advance r') < weight r

module _ {F I : Type 0} where
  Lighter-refl : (r : Replayer F I) → Lighter r r
  Lighter-refl r = record { same_config = refl; same_frames = refl; lighter = λ h. omega arith }

  abbrev AllLighter : Replayer F I → Option (Bool × String × Replayer F I) → Type 0
  AllLighter r none = DividesByZero r.config.fault
  AllLighter r (some (skip, given, r')) = Lighter r r'

module _ {N F I : Type 0} (f : Float F) (j : JsonApi N F I) where
  apply_fault-Lighter :
      (t : FaultType I) (json : Value N) (text : String) (r : Replayer F I)
      → Lighter r (apply_fault f j t json text r).2
  unfolding apply_fault
  apply_fault-Lighter drop json text r = Lighter-refl r
  apply_fault-Lighter reorder json text r = elim (Option-cases (next_after r)) [
    | inl e ↦ rw (e, apply_fault) (Lighter-refl r)
    | inr ((ts, next), e) ↦
        let lt = get_elem?-lt r.frames (suc r.current_index) e in
        rw (e, apply_fault)
          (record { same_config = refl; same_frames = refl; lighter = λ h. omega arith })
  ]
  apply_fault-Lighter (mutate_qty delta) json text r =
      elim (Option-cases (Mutate.mutate_qty f j delta json)) [
        | inl e ↦ rw (e, apply_fault) (Lighter-refl r)
        | inr (mutated, e) ↦ rw (e, apply_fault) (Lighter-refl r)
      ]

  struck-AllLighter :
      (s : Strike I) (n : ℕ) (json : Value N) (text : String) (r : Replayer F I)
      → strike r.config.fault n ≡ s
      → AllLighter r (struck f j s json text r)
  unfolding struck
  struck-AllLighter (strikes t) n json text r e = apply_fault-Lighter t json text r
  struck-AllLighter passes n json text r e = Lighter-refl r
  struck-AllLighter divides_by_zero n json text r e = (n, e)

  counted-AllLighter :
      (symbol : String) (r : Replayer F I) (x : Option (Bool × String × Replayer F I))
      → AllLighter (count_update symbol r).1 x
      → AllLighter r x
  unfolding count_update
  counted-AllLighter symbol r none l = l
  counted-AllLighter symbol r (some (skip, given, r')) l = record {
    same_config = l.same_config;
    same_frames = l.same_frames;
    lighter = l.lighter;
  }

  look-AllLighter : (text : String) (r : Replayer F I) → AllLighter r (look f j text r)
  unfolding look look_at count_update
  look-AllLighter text r = by_symbol (book_symbol f j text)
    where
      by_symbol : (b : Option (Value N × String)) → AllLighter r (look_at f j b text r)
      by_symbol none = Lighter-refl r
      by_symbol (some (json, symbol)) = counted-AllLighter symbol r _ (
          struck-AllLighter (strike r.config.fault (count_update symbol r).0)
            (count_update symbol r).0 json text (count_update symbol r).1 refl)

-- The replayer `r'` plays the same frames with the same options.
pub record Same {F I : Type 0} (r r' : Replayer F I) : Type 0 where
  pub same_config : r'.config ≡ r.config
  pub same_frames : r'.frames ≡ r.frames

-- What a call that began with `r` comes to is nearer to the end, unless there was nothing left.
abbrev pub Moves : {F I : Type 0} → Replayer F I → Next F I → Type 0
Moves r (frame text r') = Same r r' × (weight r' < weight r)
Moves r (nothing r') =
    Same r r' × (weight r' ≤ weight r) × (r.current_index < length r.frames → weight r' < weight r)
Moves r panic = DividesByZero r.config.fault
Moves r out_of_fuel = Unit {0}

module _ {N F I : Type 0} (f : Float F) (j : JsonApi N F I) (scaled : F → Time → Time) where
  -- From a later replayer on, a call moves from the earlier one too.
  Moves-trans :
      (r u : Replayer F I) (x : Next F I) → Same r u → weight u < weight r → Moves u x → Moves r x
  Moves-trans r u (frame text r') s h (t, k) = (
    record {
      same_config = t.same_config ∙ s.same_config;
      same_frames = t.same_frames ∙ s.same_frames;
    },
    omega arith,
  )
  Moves-trans r u (nothing r') s h (t, k, _) = (
    record {
      same_config = t.same_config ∙ s.same_config;
      same_frames = t.same_frames ∙ s.same_frames;
    },
    omega arith,
    λ g. omega arith,
  )
  Moves-trans r u panic s h (n, e) = (n, ap (λ c. strike c.fault n) (sym s.same_config) ∙ e)
  Moves-trans r u out_of_fuel s h m = tt

  give-Moves :
      (again : (ℕ → Time) → Replayer F I → Next F I) (clock : ℕ → Time) (r : Replayer F I)
      (x : Option (Bool × String × Replayer F I))
      → r.config.mode ≡ as_fast
      → r.current_index < length r.frames
      → AllLighter r x
      → ((u : Replayer F I) → u.config.mode ≡ as_fast → Moves u (again clock u))
      → Moves r (give f j scaled again clock x)
  give-Moves again clock r none q h l m = l
  give-Moves again clock r (some (true, given, r')) q h l m =
      let q' : r'.config.mode ≡ as_fast = ap (λ c. c.mode) l.same_config ∙ q in
      Moves-trans r (advance r') (again clock (advance r'))
        (record { same_config = l.same_config; same_frames = l.same_frames }) (l.lighter h)
        (m (advance r') q')
  give-Moves again clock r (some (false, given, r')) q h l m =
      (record { same_config = l.same_config; same_frames = l.same_frames }, l.lighter h)

  quick_wait :
      (now ts : Time) (r : Replayer F I)
      → r.config.mode ≡ as_fast
      → must_wait scaled now ts r ≡ false
  unfolding must_wait
  quick_wait now ts r q = never r.start_time r.first_frame_time
    where
      never : (a b : Option Time) → wait_for scaled r.config.mode now ts a b ≡ false
      never (some x) (some y) = rw q refl
      never (some x) none = refl
      never none b = refl

  at_frame-Moves :
      (again : (ℕ → Time) → Replayer F I → Next F I) (clock : ℕ → Time) (r : Replayer F I)
      (x : Option (Time × String))
      → get_elem? r.frames r.current_index ≡ x
      → r.config.mode ≡ as_fast
      → ((u : Replayer F I) → u.config.mode ≡ as_fast → Moves u (again clock u))
      → Moves r (at_frame f j scaled again clock r x)
  at_frame-Moves again clock r none e q m = (
    record { same_config = refl; same_frames = refl },
    omega arith,
    λ h. absurd (omega (arith, h, get_elem?-ge r.frames r.current_index e)),
  )
  at_frame-Moves again clock r (some (ts, text)) e q m =
      rw (quick_wait (clock r.current_index) ts r q, at_frame)
        (give-Moves again clock r (look f j text r) q (get_elem?-lt r.frames r.current_index e)
          (look-AllLighter f j text r) m)

  buffered_Moves :
      (again : (ℕ → Time) → Replayer F I → Next F I) (clock : ℕ → Time) (r : Replayer F I)
      (b : Option String)
      → r.next_frame_buffer ≡ b
      → r.config.mode ≡ as_fast
      → ((u : Replayer F I) → u.config.mode ≡ as_fast → Moves u (again clock u))
      → Moves r (unless_buffered f j scaled again clock r b)
  buffered_Moves again clock r (some b) e q m =
      (record { same_config = refl; same_frames = refl }, rw e (omega arith))
  buffered_Moves again clock r none e q m =
      at_frame-Moves again clock r (get_elem? r.frames r.current_index) refl q m

  -- As fast as possible, a call moves on, whatever the faults.
  pub next_frame-Moves :
      (fuel : ℕ) (clock : ℕ → Time) (r : Replayer F I)
      → r.config.mode ≡ as_fast
      → Moves r (next_frame f j scaled fuel clock r)
  unfolding next_frame
  next_frame-Moves zero clock r q = tt
  next_frame-Moves (suc fuel) clock r q =
      buffered_Moves (next_frame f j scaled fuel) clock r r.next_frame_buffer refl q
        (next_frame-Moves fuel clock)
