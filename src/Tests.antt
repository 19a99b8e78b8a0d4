-- ===== src/Tests.antt =====
-- The theorems at concrete inputs, and tests of the definitions.
pub mod Values
pub mod Session
pub mod Terminal
pub mod Live
pub mod Client
pub mod Books
pub mod Processing
pub mod Connections
pub mod Replays
pub mod Monitoring
