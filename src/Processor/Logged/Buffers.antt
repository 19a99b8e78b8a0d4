-- ===== src/Processor/Logged/Buffers.antt =====
-- crates/blackbox-server/src/main.rs: the buffers of frames for each symbol. The symbol is looked for
-- in the field `data` as if that were an object.
use k_blackbox.Base.{◌≡◌, ap, ◌∙◌, some, String, arith}
use k_blackbox.Decimal.{Decimal}
use k_blackbox.Words.{Time}
use k_blackbox.Json.{Value, Items, array, get, as_str, ◌>>=◌}
use k_blackbox.State.{AppState}
use k_blackbox.Client.Connection.{frame}
use k_blackbox.Processor.Defs.{store_frame}
use k_blackbox.Processor.Capture.{
  Tools, LogClock, LoggedState, record_if_enabled, buffer_frame, on_frame,
}
use k_blackbox.Processor.Logged.{process_event}

module _ {D F : Type 0} where
  record_if_enabled-buffers :
      (now : Time) (raw : String) (s : AppState D F)
      → (record_if_enabled now raw s).per_symbol_frames ≡ s.per_symbol_frames
  unfolding record_if_enabled
  record_if_enabled-buffers now raw s = ground arith

module _ {D F N : Type 0} ⦃d : Decimal D⦄ (tools : Tools D F N) where
  -- A frame whose field `data` is an array, as it is in every book message, is stored in no symbol's
  -- buffer: all of the buffers stay as they were.
  pub array_frame_unbuffered :
      (clock : LogClock) (raw : String) (json : Value N) (items : Items N) (l : LoggedState D F N)
      → tools.from_str raw ≡ some json
      → get "data" json ≡ some (array items)
      → (process_event tools clock (frame raw) l).state.per_symbol_frames
        ≡ l.state.per_symbol_frames
  unfolding process_event on_frame store_frame get
  array_frame_unbuffered clock raw json items l parsed is_array =
      ap
        (λ o.
          (buffer_frame raw (((o >>= get "data") >>= get "symbol") >>= as_str)
            stored).per_symbol_frames)
        parsed
      ∙ ap (λ o. (buffer_frame raw ((o >>= get "symbol") >>= as_str) stored).per_symbol_frames)
          is_array
      ∙ record_if_enabled-buffers clock.state_recorded raw l.state
    where
      stored : AppState D F
      stored =
          store_frame clock.base.stored raw (record_if_enabled clock.state_recorded raw l.state)
