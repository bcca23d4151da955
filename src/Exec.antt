-- ===== src/Exec.antt =====
-- crates/oad/src/background_exec.rs: processes that run in a sandbox behind an HTTP session.
pub mod Session
pub mod Control
pub mod Waiter
pub mod Steps
pub mod Replay
