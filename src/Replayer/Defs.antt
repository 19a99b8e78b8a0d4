-- ===== src/Replayer/Defs.antt =====
-- `Replayer` and its methods. A call of `next_frame` that drops a frame calls itself, so it takes fuel;
-- `Total` shows how much is enough. The clock is read once for each frame that is looked at.
use k_blackbox.Base.{
  ℕ, zero, suc, ◌-◌, ◌%◌, List, [], map, Bool, true, false, Option, none, some, String, str_eq,
  length, get_elem?, head?, ltb, leb, ◌==◌, if◌then◌else◌,
}
use k_blackbox.Words.{Time, Float}
use k_blackbox.DashMap.{Map, insert, get_or}
use k_blackbox.Json.{Value, get, as_str, as_array, first, ◌>>=◌}
use k_blackbox.Types.{
  RecordedFrame, ReplayConfig, ReplayMode, realtime, speed, as_fast, FaultRule, every, once_at,
  no_fault, FaultType, drop, reorder, mutate_qty,
}
use k_blackbox.Replayer.Mutate.{JsonApi}
use k_blackbox.Replayer.Mutate

pub record Replayer (F I : Type 0) : Type 0 where
  pub frames : List (Time × String)
  pub current_index : ℕ
  pub start_time : Option Time
  pub first_frame_time : Option Time
  pub config : ReplayConfig F I
  pub book_update_count : Map ℕ
  pub fault_applied : Bool
  pub next_frame_buffer : Option String

-- What a call of `next_frame` comes to. `panic` is a remainder by zero.
pub data Next (F I : Type 0) : Type 0 where
  frame : String → Replayer F I → Next F I
  nothing : Replayer F I → Next F I
  panic : Next F I
  out_of_fuel : Next F I

-- Does the fault rule strike at this book update?
pub data Strike (I : Type 0) : Type 0 where
  strikes : FaultType I → Strike I
  passes : Strike I
  divides_by_zero : Strike I

module _ {I : Type 0} where
  unfoldable pub strike : FaultRule I → ℕ → Strike I
  strike (every n fault) update_index =
      if n == 0 then divides_by_zero else if update_index % n == 0 then strikes fault else passes
  strike (once_at index fault) update_index =
      if update_index == index then strikes fault else passes
  strike no_fault update_index = passes

module _ {F : Type 0} where
  -- `scaled` is the offset divided by the speed, by way of floats.
  abbrev pub too_early : (F → Time → Time) → ReplayMode F → Time → Time → Bool
  too_early scaled realtime elapsed offset = ltb elapsed offset
  too_early scaled (speed s) elapsed offset = ltb elapsed (scaled s offset)
  too_early scaled as_fast elapsed offset = false

  abbrev pub wait_for :
      (F → Time → Time) → ReplayMode F → Time → Time → Option Time → Option Time → Bool
  wait_for scaled mode now ts (some begun) (some first_ts) =
      too_early scaled mode (now - begun) (ts - first_ts)
  wait_for scaled mode now ts (some begun) none = false
  wait_for scaled mode now ts none first_ts = false

module _ {F I : Type 0} where
  -- `new`, from the records that the lines of the file hold.
  unfoldable pub new : List RecordedFrame → ReplayConfig F I → Replayer F I
  new records config = record {
    frames = map (λ r. (r.ts, r.raw_frame)) records;
    current_index = 0;
    start_time = none;
    first_frame_time = none;
    config = config;
    book_update_count = [];
    fault_applied = false;
    next_frame_buffer = none;
  }

  unfoldable pub start : Time → Replayer F I → Replayer F I
  start now r = elim (head? r.frames) [
    | some (first_ts, _) ↦ record r { start_time = some now; first_frame_time = some first_ts }
    | none ↦ record r { start_time = some now }
  ]

  unfoldable pub is_done : Replayer F I → Bool
  is_done r = leb (length r.frames) r.current_index

  unfoldable pub progress : Float F → Replayer F I → F
  progress f r =
      if length r.frames == 0
      then f.one
      else f.div (f.of_u64 r.current_index) (f.of_u64 (length r.frames))

  -- Frame `i + 1`, if there is one.
  abbrev pub next_after : Replayer F I → Option (Time × String)
  next_after r = get_elem? r.frames (suc r.current_index)

  unfoldable pub must_wait : (F → Time → Time) → Time → Time → Replayer F I → Bool
  must_wait scaled now frame_ts r =
      wait_for scaled r.config.mode now frame_ts r.start_time r.first_frame_time

  -- One more update of the symbol, and its number.
  unfoldable pub count_update : String → Replayer F I → ℕ × Replayer F I
  count_update symbol r =
      let n = suc (get_or 0 symbol r.book_update_count) in
      (n, record r { book_update_count = insert symbol n r.book_update_count })

  -- `current_index += 1`.
  abbrev pub advance : Replayer F I → Replayer F I
  advance r = record r { current_index = suc r.current_index }

module _ {N F I : Type 0} (f : Float F) (j : JsonApi N F I) where
  -- The document and the symbol of a book frame.
  unfoldable pub book_symbol : String → Option (Value N × String)
  book_symbol text = do
    json ← j.from_str text
    channel ← get "channel" json >>= as_str
    items ← get "data" json >>= as_array
    book ← first items
    symbol ← get "symbol" book >>= as_str
    if str_eq channel "book" then some (json, symbol) else none

  -- A fault at the current frame: is it skipped, what is given out, and the state. `advance` is
  -- still to come.
  unfoldable pub apply_fault :
      FaultType I → Value N → String → Replayer F I → Bool × String × Replayer F I
  apply_fault drop json text r = (true, text, r)
  apply_fault reorder json text r = elim (next_after r) [
    | some (_, next) ↦ (false, next, record (advance r) { next_frame_buffer = some text })
    | none ↦ (false, text, r)
  ]
  apply_fault (mutate_qty delta) json text r = elim (Mutate.mutate_qty f j delta json) [
    | some mutated ↦ (false, mutated, r)
    | none ↦ (false, text, r)
  ]

  -- What the current frame gives; `none` is a panic.
  unfoldable pub struck :
      Strike I → Value N → String → Replayer F I → Option (Bool × String × Replayer F I)
  struck (strikes fault) json text r = some (apply_fault fault json text r)
  struck passes json text r = some (false, text, r)
  struck divides_by_zero json text r = none

  unfoldable pub look_at :
      Option (Value N × String) → String → Replayer F I → Option (Bool × String × Replayer F I)
  look_at none text r = some (false, text, r)
  look_at (some (json, symbol)) text r =
      let (n, counted) = count_update symbol r in struck (strike r.config.fault n) json text counted

  unfoldable pub look : String → Replayer F I → Option (Bool × String × Replayer F I)
  look text r = look_at (book_symbol text) text r

module _ {N F I : Type 0} (f : Float F) (j : JsonApi N F I) (scaled : F → Time → Time) where
  -- The steps of `next_frame` from the last to the first. `again` is its call of itself, and
  -- `clock i` is the time that is read while frame `i` is looked at.
  abbrev pub give :
      ((ℕ → Time) → Replayer F I → Next F I)
      → (ℕ → Time)
      → Option (Bool × String × Replayer F I)
      → Next F I
  give again clock none = panic
  give again clock (some (true, _, r)) = again clock (advance r)
  give again clock (some (false, given, r)) = frame given (advance r)

  abbrev pub at_frame :
      ((ℕ → Time) → Replayer F I → Next F I)
      → (ℕ → Time)
      → Replayer F I
      → Option (Time × String)
      → Next F I
  at_frame again clock r none = nothing r
  at_frame again clock r (some (ts, text)) = elim (must_wait scaled (clock r.current_index) ts r) [
    | true ↦ nothing r
    | false ↦ give again clock (look f j text r)
  ]

  abbrev pub unless_buffered :
      ((ℕ → Time) → Replayer F I → Next F I) → (ℕ → Time) → Replayer F I → Option String → Next F I
  unless_buffered again clock r (some buffered) =
      frame buffered (record r { next_frame_buffer = none })
  unless_buffered again clock r none = at_frame again clock r (get_elem? r.frames r.current_index)

  unfoldable pub next_frame : ℕ → (ℕ → Time) → Replayer F I → Next F I
  next_frame zero clock r = out_of_fuel
  next_frame (suc fuel) clock r = unless_buffered (next_frame fuel) clock r r.next_frame_buffer
