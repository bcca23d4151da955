-- ===== src/Oci.antt =====
-- Images: crates/oad-oci.
pub mod Extract
pub mod Digest
