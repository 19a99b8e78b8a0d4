-- ===== src/Replayer/Plain.antt =====
-- What a call of `next_frame` gives without faults and as fast as possible.
use k_blackbox.Base.{
  ℕ, zero, suc, ◌≤◌, ◌<◌, ◌≡◌, refl, ap, ◌∙◌, List, [], ◌∷◌, map, false, Option, none, some, String,
  length, get_elem?, drop, arith,
}
use k_blackbox.Words.{Time, Float}
use k_blackbox.Json.{Value}
use k_blackbox.Types.{RecordedFrame, no_fault, as_fast}
use k_blackbox.Replayer.Mutate.{JsonApi}
use k_blackbox.Replayer.Defs.{
  Replayer, frame, strike, struck, look, look_at, count_update, next_frame, book_symbol, must_wait,
  wait_for, advance, give, at_frame, unless_buffered,
}

module _ {ℓ} {A : Type ℓ} where
  pub get_elem?-drop :
      (i : ℕ) (xs : List A) {y : A} {ys : List A} → drop i xs ≡ y ∷ ys → get_elem? xs i ≡ some y
  get_elem?-drop zero [] h = absurd (cc)
  get_elem?-drop zero (x ∷ xs) h = cc
  get_elem?-drop (suc i) [] h = absurd (cc)
  get_elem?-drop (suc i) (x ∷ xs) h = get_elem?-drop i xs h

  pub drop-suc :
      (i : ℕ) (xs : List A) {y : A} {ys : List A} → drop i xs ≡ y ∷ ys → drop (suc i) xs ≡ ys
  drop-suc zero [] h = absurd (cc)
  drop-suc zero (x ∷ xs) h = cc
  drop-suc (suc i) [] h = absurd (cc)
  drop-suc (suc i) (x ∷ xs) h = drop-suc i xs h

  pub drop_end : (i : ℕ) (xs : List A) → drop i xs ≡ [] → length xs ≤ i
  drop_end zero [] h = omega arith
  drop_end zero (x ∷ xs) h = absurd (cc)
  drop_end (suc i) [] h = omega arith
  drop_end (suc i) (x ∷ xs) h = omega (arith, drop_end i xs h)

  pub drop-lt : (i : ℕ) (xs : List A) {y : A} {ys : List A} → drop i xs ≡ y ∷ ys → i < length xs
  drop-lt zero [] h = absurd (cc)
  drop-lt zero (x ∷ xs) h = omega arith
  drop-lt (suc i) [] h = absurd (cc)
  drop-lt (suc i) (x ∷ xs) h = omega (arith, drop-lt i xs h)

abbrev pub texts_of : List (Time × String) → List String
texts_of [] = []
texts_of ((ts, text) ∷ xs) = text ∷ texts_of xs

abbrev pub timed : RecordedFrame → Time × String
timed x = (x.ts, x.raw_frame)

pub length-records : (rs : List RecordedFrame) → length (map timed rs) ≡ length rs
length-records [] = refl
length-records (x ∷ rs) = ap suc (length-records rs)

pub texts-records : (rs : List RecordedFrame) → texts_of (map timed rs) ≡ map (λ x. x.raw_frame) rs
texts-records [] = refl
texts-records (x ∷ rs) = ap (◌∷◌ x.raw_frame) (texts-records rs)

module _ {N F I : Type 0} (f : Float F) (j : JsonApi N F I) (scaled : F → Time → Time) where
  -- No fault, no wait and no frame held back.
  pub record IsPlain (r : Replayer F I) : Type 0 where
    pub no_faults : r.config.fault ≡ no_fault
    pub no_waits : r.config.mode ≡ as_fast
    pub not_buffered : r.next_frame_buffer ≡ none

  pub advance_plain : (r : Replayer F I) → IsPlain r → IsPlain (advance r)
  advance_plain r p = record {
    no_faults = p.no_faults;
    no_waits = p.no_waits;
    not_buffered = p.not_buffered;
  }

  -- What a call gives on a plain replayer that has a frame left.
  pub record GivesNext (r r' : Replayer F I) : Type 0 where
    pub plain : IsPlain r'
    pub same_frames : r'.frames ≡ r.frames
    pub same_index : r'.current_index ≡ r.current_index

  look_plain :
      (text : String) (r : Replayer F I)
      → IsPlain r
      → (r' : Replayer F I) × (look f j text r ≡ some (false, text, r')) × GivesNext r r'
  unfolding look look_at count_update strike struck
  look_plain text r p = go (book_symbol f j text)
    where
      go :
          (b : Option (Value N × String))
          → (r' : Replayer F I) × (look_at f j b text r ≡ some (false, text, r')) × GivesNext r r'
      go none = (r, refl, record { plain = p; same_frames = refl; same_index = refl })
      go (some (json, symbol)) = (
        (count_update symbol r).1,
        ap
            (λ x.
              struck f j (strike x (count_update symbol r).0) json text (count_update symbol r).1)
            p.no_faults,
        record {
          plain = record {
            no_faults = p.no_faults;
            no_waits = p.no_waits;
            not_buffered = p.not_buffered;
          };
          same_frames = refl;
          same_index = refl;
        },
      )

  wait_as_fast : (now ts : Time) (a b : Option Time) → wait_for scaled as_fast now ts a b ≡ false
  wait_as_fast now ts (some x) (some y) = refl
  wait_as_fast now ts (some x) none = refl
  wait_as_fast now ts none b = refl

  must_wait_plain :
      (now ts : Time) (r : Replayer F I) → IsPlain r → must_wait scaled now ts r ≡ false
  unfolding must_wait
  must_wait_plain now ts r p =
      ap (λ m. wait_for scaled m now ts r.start_time r.first_frame_time) p.no_waits
      ∙ wait_as_fast now ts r.start_time r.first_frame_time

  pub next_frame_plain :
      (fuel : ℕ) (clock : ℕ → Time) (r : Replayer F I) (ts : Time) (text : String)
      → IsPlain r
      → get_elem? r.frames r.current_index ≡ some (ts, text)
      → (r' : Replayer F I) × (next_frame f j scaled (suc fuel) clock r ≡ frame text (advance r'))
        × GivesNext r r'
  unfolding next_frame
  next_frame_plain fuel clock r ts text p e =
      let (r', l, g) = look_plain text r p in
      (
        r',
        ap (unless_buffered f j scaled (next_frame f j scaled fuel) clock r) p.not_buffered
            ∙ ap (at_frame f j scaled (next_frame f j scaled fuel) clock r) e
            ∙ rw (must_wait_plain (clock r.current_index) ts r p, at_frame)
                (ap (give f j scaled (next_frame f j scaled fuel) clock) l),
        g,
      )
