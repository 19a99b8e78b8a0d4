-- ===== src/Replayer.antt =====
-- crates/blackbox-core/src/replayer.rs: a recorded session, given out frame by frame, with faults.
mod Defs
pub mod Mutate
pub mod Total
pub mod Progress
pub mod Plain
pub mod Reorder
unfoldable pub use Defs.*
