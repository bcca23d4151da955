-- ===== src/Core.antt =====
-- crates/oad-core: the types that the daemon's crates share, and the layout of its directories.
pub mod Ids
pub mod Paths
pub mod Spec
pub mod Record
