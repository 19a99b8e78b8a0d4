-- ===== src/Tasks/Sound.antt =====
-- crates/blackbox-server/src/state.rs: what holds of the shared state all along, and how the parts of
-- the handlers keep it.
use k_blackbox.Base.{
  ◌≤◌, List, [], ◌∷◌, ◌++◌, length, length-append, length-drop, Bool, true, false, Option, none,
  some, String, length-trim_front, holds_if, arith,
}
use k_blackbox.Decimal.{Decimal}
use k_blackbox.Words.{Time}
use k_blackbox.DashMap.{get_or}
use k_blackbox.DashMap.Every.{Every, Every-insert, Every-get_or}
use k_blackbox.Orderbook.{Orderbook}
use k_blackbox.Orderbook.Invariant.{IsValid}
use k_blackbox.Recorder
use k_blackbox.Recorder.{Recorder}
use k_blackbox.State.{AppState, UiEvent, push_event, get_or_create_frame_buffer}
use k_blackbox.Processor.Defs.{store_book, store_frame, record_with}
use k_blackbox.Processor.Capture.{record_if_enabled, buffer_frame}
use k_blackbox.Tui.Actions.{Recording}

-- The log has at most 500 events, 1000 frames are kept, 2000 for each symbol, and 1000 latencies for
-- each proof; every book is valid; the flag, the recorder and the path of the recording agree.
abbrev pub IsSound : {D F : Type 0} ⦃d : Decimal D⦄ → AppState D F → Type 0
IsSound s =
    (length s.event_log ≤ 500)
    × (length s.last_frames ≤ 1000)
    × Every (λ buffer. length buffer ≤ 2000) s.per_symbol_frames
    × Every (λ proof. length proof.latency_history ≤ 1000) s.integrity_proofs
    × Every IsValid s.orderbooks
    × Recording s.recording_enabled s.recorder s.recording_path

module _ {D F : Type 0} ⦃d : Decimal D⦄ where
  pub push_event-IsSound :
      (now : Time) (e : UiEvent) (s : AppState D F) → IsSound s → IsSound (push_event now e s)
  unfolding push_event
  push_event-IsSound now e s v = (length-trim_front 500 _, v.1, v.2, v.3, v.4, v.5)

  pub store_book-IsSound :
      (symbol : String) (book : Orderbook D) (s : AppState D F)
      → IsValid book
      → IsSound s
      → IsSound (store_book symbol book s)
  unfolding store_book
  store_book-IsSound symbol book s b v =
      (v.0, v.1, v.2, v.3, Every-insert IsValid symbol book s.orderbooks b v.4, v.5)

  pub store_frame-IsSound :
      (now : Time) (raw : String) (s : AppState D F) → IsSound s → IsSound (store_frame now raw s)
  unfolding store_frame
  store_frame-IsSound now raw s v =
      let fs = s.last_frames ++ (now, raw) ∷ [] in
      let n : length fs ≤ 1001 = omega (arith, v, length-append s.last_frames ((now, raw) ∷ [])) in
      (v.0, ground (arith, length-drop 1 fs), v.2, v.3, v.4, v.5)

  pub buffer-IsSound :
      (symbol : String) (s : AppState D F)
      → IsSound s
      → (length (get_or_create_frame_buffer symbol s).0 ≤ 2000)
        × IsSound (get_or_create_frame_buffer symbol s).1
  unfolding get_or_create_frame_buffer
  buffer-IsSound symbol s v =
      let P = λ (buffer : List String). length buffer ≤ 2000 in
      let b : length (get_or [] symbol s.per_symbol_frames) ≤ 2000 =
        Every-get_or P [] symbol s.per_symbol_frames (omega arith) v.2 in
      (b, (v.0, v.1, Every-insert P symbol _ s.per_symbol_frames b v.2, v.3, v.4, v.5))

  pub buffer_frame-IsSound :
      (raw : String) (symbol : Option String) (s : AppState D F)
      → IsSound s
      → IsSound (buffer_frame raw symbol s)
  buffer_frame-IsSound raw none s v = v
  buffer_frame-IsSound raw (some symbol) s v =
      let (buffer, s') = get_or_create_frame_buffer symbol s in
      let b = buffer-IsSound symbol s v in
      let w = b.1 in
      (
        w.0,
        w.1,
        Every-insert (λ (buffer : List String). length buffer ≤ 2000) symbol _ s'.per_symbol_frames
            (length-trim_front 2000 (buffer ++ raw ∷ [])) w.2,
        w.3,
        w.4,
        w.5,
      )

record_with-Recording :
    (now : Time) (raw : String) (enabled : Bool) (r : Option Recorder) (path : Option String)
    → Recording enabled r path
    → Recording enabled (record_with now raw r) path
unfolding Recorder.record_frame
record_with-Recording now raw false none path h = h
record_with-Recording now raw false (some r) path h = elim h [ ]
record_with-Recording now raw true none path h = elim h [ ]
record_with-Recording now raw true (some r) none h = elim h [ ]
record_with-Recording now raw true (some r) (some path) h = ground arith

module _ {D F : Type 0} ⦃d : Decimal D⦄ where
  pub record_if_enabled-IsSound :
      (now : Time) (raw : String) (s : AppState D F)
      → IsSound s
      → IsSound (record_if_enabled now raw s)
  unfolding record_if_enabled
  record_if_enabled-IsSound now raw s v =
      holds_if IsSound s.recording_enabled (record s { recorder = record_with now raw s.recorder })
        s
        (
          v.0,
          v.1,
          v.2,
          v.3,
          v.4,
          record_with-Recording now raw s.recording_enabled s.recorder s.recording_path v.5,
        )
        v
