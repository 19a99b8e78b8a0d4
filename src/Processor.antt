-- ===== src/Processor.antt =====
-- crates/blackbox-server/src/main.rs: the two loops that process the events of the connection. What
-- they share stands here: the readings of the clock, the books, the frames and the instruments.
pub mod Defs
pub mod Run
pub mod Books
pub mod Capture
pub mod Logged
