-- ===== src/Client.antt =====
-- The agent client's connection to the control plane: crates/omniagent-cli/src/client.
pub mod Channel
pub mod Link
pub mod Backoff
