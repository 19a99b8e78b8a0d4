-- ===== src/Client.antt =====
-- crates/blackbox-ws/src/client.rs: the events for the processor, the decoding of messages, one
-- connection and the reconnection loop.
pub mod Decode
pub mod Connection
pub mod Backoff
pub mod Handshake
pub mod Once
pub mod Forwarded
