-- ===== src/Integrity.antt =====
-- crates/blackbox-server/src/integrity: the fault injector, the proof of the last verification, and
-- the meta data of an incident.
pub mod Injector
pub mod Proof
pub mod Helper
