-- ===== src/Registry.antt =====
-- crates/oad/src/registry.rs: the daemon's sandbox records and its keyed locks.
pub mod Locks
pub mod Records
