-- ===== src/Replayer/Reorder.antt =====
-- What a drop and a reorder do to the order of the frames.
use k_blackbox.Base.{ℕ, suc, ◌≡◌, refl, ap, ◌∙◌, false, none, some, String, length, get_elem?, leb}
use k_blackbox.Words.{Time, Float}
use k_blackbox.Json.{Value}
use k_blackbox.Types.{FaultType, drop, reorder}
use k_blackbox.Replayer.Mutate.{JsonApi}
use k_blackbox.Replayer.Defs.{
  Replayer, frame, strike, strikes, struck, look, look_at, count_update, next_frame, book_symbol,
  must_wait, advance, give, at_frame, unless_buffered, apply_fault, is_done,
}

module _ {N F I : Type 0} (f : Float F) (j : JsonApi N F I) (scaled : F → Time → Time) where
  -- The next frame of the recording is due, is a book update, and the fault strikes it.
  pub record Struck (clock : ℕ → Time) (r : Replayer F I) (fault : FaultType I) (text : String)
      : Type 0 where
    pub ts : Time
    pub json : Value N
    pub symbol : String
    pub not_buffered : r.next_frame_buffer ≡ none
    pub at_index : get_elem? r.frames r.current_index ≡ some (ts, text)
    pub due : must_wait scaled (clock r.current_index) ts r ≡ false
    pub is_book : book_symbol f j text ≡ some (json, symbol)
    pub struck_now : strike r.config.fault (count_update symbol r).0 ≡ strikes fault

  look-Struck :
      (clock : ℕ → Time) (r : Replayer F I) (fault : FaultType I) (text : String)
      (s : Struck clock r fault text)
      → look f j text r ≡ some (apply_fault f j fault s.json text (count_update s.symbol r).1)
  unfolding look look_at struck
  look-Struck clock r fault text s =
      ap (λ b. look_at f j b text r) s.is_book
      ∙ ap (λ x. struck f j x s.json text (count_update s.symbol r).1) s.struck_now

  next_frame-Struck :
      (fuel : ℕ) (clock : ℕ → Time) (r : Replayer F I) (fault : FaultType I) (text : String)
      (s : Struck clock r fault text)
      → next_frame f j scaled (suc fuel) clock r
        ≡ give f j scaled
            (next_frame f j scaled fuel)
            clock
            (some (apply_fault f j fault s.json text (count_update s.symbol r).1))
  unfolding next_frame
  next_frame-Struck fuel clock r fault text s =
      ap (unless_buffered f j scaled (next_frame f j scaled fuel) clock r) s.not_buffered
      ∙ ap (at_frame f j scaled (next_frame f j scaled fuel) clock r) s.at_index
      ∙ rw (s.due, at_frame)
          (ap (give f j scaled (next_frame f j scaled fuel) clock)
            (look-Struck clock r fault text s))

  -- A dropped frame is passed over: the call gives what a call from the frame after it gives.
  pub next_frame-drop :
      (fuel : ℕ) (clock : ℕ → Time) (r : Replayer F I) (text : String)
      (s : Struck clock r drop text)
      → next_frame f j scaled (suc fuel) clock r
        ≡ next_frame f j scaled fuel clock (advance (count_update s.symbol r).1)
  unfolding apply_fault
  next_frame-drop fuel clock r text s = next_frame-Struck fuel clock r drop text s

  -- A reorder swaps a frame with the one behind it: this call gives the later frame and the next
  -- call gives the earlier one. In between, the replayer says that it is done exactly if the two are
  -- the last frames, although it still holds the earlier one back.
  pub next_frame-reorder :
      (fuel : ℕ) (clock : ℕ → Time) (r : Replayer F I) (text : String) (ts' : Time) (text' : String)
      → Struck clock r reorder text
      → get_elem? r.frames (suc r.current_index) ≡ some (ts', text')
      → (between : Replayer F I) × (after : Replayer F I) × (next_frame f j scaled
            (suc fuel)
            clock
            r
          ≡ frame text' between)
        × (next_frame f j scaled (suc fuel) clock between ≡ frame text after)
        × (after.current_index ≡ suc (suc r.current_index))
        × (is_done between ≡ leb (length r.frames) (suc (suc r.current_index)))
  unfolding apply_fault count_update next_frame is_done
  next_frame-reorder fuel clock r text ts' text' s e =
      let counted = (count_update s.symbol r).1 in
      let held : Replayer F I = record (advance counted) { next_frame_buffer = some text } in
      (
        advance held,
        record (advance held) { next_frame_buffer = none },
        next_frame-Struck fuel clock r reorder text s ∙ rw (e, apply_fault),
        refl,
        refl,
        refl,
      )
