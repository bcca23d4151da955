-- ===== src/Lib.antt =====
-- Verification of omniagent's Rust code: the sandbox daemon `oad` (crates/oad with crates/oad-core,
-- crates/oad-api and crates/oad-runtime) and the agent's client (crates/omniagent-cli).
--
-- The daemon keeps sandboxes as directories under one base directory (Core.Paths), named by checked
-- ids (Core.Ids). Its registry holds a record for each sandbox in memory and on disk and serializes
-- operations by keyed locks (Registry). Each sandbox gets a /30 subnet and names on the host from a
-- hash of its id, and rules of nft and iptables that carry out its network spec (Network). Containers
-- are run by the program runsc (Runtime). Processes in a sandbox run behind sessions that clients
-- read, write and kill over HTTP (Exec).
--
-- Images are unpacked layer by layer below a root directory, from archives that are not trusted (Oci).
--
-- The agent's client sends the events of its sessions over one socket to the control plane. Each
-- channel numbers its events and keeps them until the control plane acknowledges them; a flusher and a
-- heartbeat send them, and a join after a disconnect sends what is left again (Client).
--
-- Files and sources:
--   Core/Ids        crates/oad-core/src/lib.rs: validate_id_segment, validate_container_name, SandboxId
--   Core/Paths      crates/oad-core/src/lib.rs: OadPaths; Paths/Join is Path::join on texts
--   Core/Spec       crates/oad-core/src/lib.rs: ContainerSpec, SandboxNetworkSpec and their parts
--   Core/Record     crates/oad-core/src/lib.rs: SandboxRecord
--   Exec/Session    crates/oad/src/background_exec.rs: the session, push_event, events_since, finish
--   Exec/Control    crates/oad/src/background_exec.rs: write_stdin, resize, kill
--   Exec/Waiter     crates/oad/src/background_exec.rs: finish_child, spawn_pty_waiter
--   Exec/Steps      crates/oad/src/background_exec.rs: all tasks of one session, interleaved
--   Registry/Locks  crates/oad/src/registry.rs: NamedLocks, and the lifecycle locks, which repeat it
--   Registry/Records crates/oad/src/registry.rs: SandboxRegistry, over the ways write_atomic_file ends
--   Network/Cidr    crates/oad/src/network.rs: Ipv4Cidr; Network/Parse is what it takes from std
--   Network/Hash    crates/oad/src/network.rs: stable_hash, salted_token
--   Network/Alloc   crates/oad/src/network.rs: allocate_state, read_states
--   Network/Validate crates/oad/src/network.rs: validate_spec
--   Network/Nft     crates/oad/src/network.rs: render_nft_ruleset; Nft/Filter is nft's reading of rules
--   Network/Firewall crates/oad/src/network.rs: host_firewall_rules, ensure and delete of them
--   Oci/Extract     crates/oad-oci/src/lib.rs: extract_layer_from_reader and what it calls
--   Oci/Digest      crates/oad-oci/src/lib.rs: blob_filename
--   Runtime         crates/oad-runtime/src/lib.rs: the argument builders of Runsc
--   Runtime/Exec    crates/oad-runtime/src/lib.rs: exec_args, and how runsc reads it
--   Runtime/Calls   crates/oad-runtime/src/lib.rs: Runsc::run, Runsc::state, Runsc::delete
--   Runtime/Sequence crates/oad-runtime/src/lib.rs: delete_visible_containers
--   Client/Channel  crates/omniagent-cli/src/client/conn.rs: ChannelInner, push_replayable, apply_ack
--   Client/Link     crates/omniagent-cli/src/client/conn.rs: flush_channel_once, spawn_heartbeat, joins
--                   apps/omniagent_web/lib/omniagent_web/channels/client_channel.ex: handle_in
--                   apps/omniagent/lib/omniagent/sessions.ex: update_last_sequence
--   Client/Backoff  crates/omniagent-cli/src/client/conn.rs: Backoff
--   Prelude         texts, maps, lists and results that the parts share
--   Tests           runs of the definitions, and the theorems at concrete inputs
--
-- How the code is read: a `String` is the list of its code points; a `BTreeMap` is its entries in
-- order; a clock, the outcome of a system call and what other tasks do across an await are arguments;
-- asynchronous tasks are steps in any order, one step for each stretch between awaits that holds a
-- lock. A u64 counter and u32 addresses wrap as written out; other counts are plain numbers.
--
-- Fuel: the searches of allocate_state run over the same ranges as in the source (the number of
-- blocks, and u32::MAX attempts); printing a number has fuel 20 and 16, and a u32 has at most ten
-- decimal and a 40-bit token at most ten hexadecimal digits. The loop of shed_outbox has the length of
-- the outbox, from which each round takes one item. Nothing else takes fuel.
--
-- Parameters: the port of a `SocketAddr`'s text, the iptables program with a table of any type, of
-- which the theorems suppose what its manual says of -C, -I and -D (Network.Firewall.Ensure's
-- IsIptables), serde_json's values (Client.Channel's Json), the calls of the file system (Oci.Extract's
-- Os, of which the theorems suppose Oci.Extract.Confined's IsOs), and the program runsc and the
-- file for its log (Runtime.Calls's Program, of which the theorem supposes IsProgram).
--
-- Not modelled: serialization, HTTP handlers, the calls of ip, tc, nft and envoy, fetching images, the
-- command line of oad-cli, the rest of the agent's client (its executor, proxy, logs and files) and of
-- the Elixir control plane.
pub mod Prelude
pub mod Core
pub mod Exec
pub mod Registry
pub mod Network
pub mod Oci
pub mod Runtime
pub mod Client
mod Tests
