-- ===== src/Tui.antt =====
-- crates/blackbox-server/src/tui: the keys, the state of the terminal interface, the snapshot that it
-- shows, what its actions do to the shared state, its loop, and what it draws, as data.
pub mod Keys
pub mod App
pub mod Actions
pub mod Console
pub mod Screen
pub mod Tab
pub mod Widgets
pub mod Export
pub mod Snapshot
