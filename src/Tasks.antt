-- ===== src/Tasks.antt =====
-- crates/blackbox-server/src: the tasks that share the state.
pub mod Sound
pub mod Verdicts
pub mod Events
pub mod Terminal
pub mod Recordings
pub mod Starts
pub mod Steps
pub mod Reachable
pub mod Shown
