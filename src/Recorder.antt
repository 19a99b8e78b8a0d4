-- ===== src/Recorder.antt =====
-- crates/blackbox-core/src/recorder.rs: frames appended to a file. `file` is what the flushed file
-- holds, a frame to a line; I/O that fails is outside the model.
use k_blackbox.Base.{
  ◌≡◌, refl, ap, ◌∙◌, List, [], ◌∷◌, ◌++◌, append-nil, append_assoc, Bool, true, false, Option,
  String, if◌then◌else◌, arith,
}
use k_blackbox.Words.{Time}
use k_blackbox.Types.{RecordedFrame}

pub record Recorder : Type 0 where
  -- `writer.is_some()`.
  pub is_open : Bool
  pub file : List RecordedFrame
  pub path : String

unfoldable pub new : String → Recorder
new p = record { is_open = true; file = []; path = p }

unfoldable pub record_frame : Time → String → Option String → Recorder → Recorder
record_frame now raw_frame decoded_event r =
    if r.is_open
    then record r {
      file =
          r.file ++ record { ts = now; raw_frame = raw_frame; decoded_event = decoded_event } ∷ [];
    }
    else r

unfoldable pub close : Recorder → Recorder
close r = record r { is_open = false }

-- A run of frames that arrive at their times.
unfoldable pub record_frames : List RecordedFrame → Recorder → Recorder
record_frames [] r = r
record_frames (f ∷ fs) r = record_frames fs (record_frame f.ts f.raw_frame f.decoded_event r)

pub record_frames-open :
    (fs : List RecordedFrame) (r : Recorder)
    → r.is_open ≡ true
    → (record_frames fs r).file ≡ r.file ++ fs
unfolding record_frames record_frame
record_frames-open [] r h = ground (arith, append-nil r.file)
record_frames-open (f ∷ fs) r h = ground (
  arith,
  record_frames-open fs (record_frame f.ts f.raw_frame f.decoded_event r),
  append_assoc r.file (f ∷ []) fs,
)

record_frames-closed :
    (fs : List RecordedFrame) (r : Recorder) → r.is_open ≡ false → record_frames fs r ≡ r
unfolding record_frames record_frame
record_frames-closed [] r h = refl
record_frames-closed (f ∷ fs) r h = ground (arith, record_frames-closed fs r h)

-- A new recording holds the frames that came before it was closed, in their order, and none after.
pub file-close :
    (p : String) (before after : List RecordedFrame)
    → (record_frames after (close (record_frames before (new p)))).file ≡ before
unfolding new close
file-close p before after =
    ap (λ r. r.file) (record_frames-closed after (close (record_frames before (new p))) refl)
    ∙ record_frames-open before (new p) refl
