-- ===== src/Network.antt =====
-- crates/oad/src/network.rs: addresses, names and rules for the sandboxes' network.
pub mod Parse
pub mod Cidr
pub mod Hash
pub mod Alloc
pub mod Validate
pub mod Display
pub mod Firewall
pub mod Nft
