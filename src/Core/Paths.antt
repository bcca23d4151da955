-- ===== src/Core/Paths.antt =====
-- Where the daemon keeps its files: crates/oad-core/src/lib.rs, `OadPaths`. A `PathBuf` is its text;
-- `join` is `Path::join` of the standard library on Unix.
pub mod Join
pub mod Isolation
use omniagent.Prelude.{ℕ, Bool, true, false, not, [], ◌∷◌, ◌++◌, Text, codes, ◌==◌, if◌then◌else◌}
use omniagent.Core.Ids.{SandboxId}
use Join.{PathBuf, join}

pub record OadPaths : Type 0 where
  pub base_dir : PathBuf

unfoldable pub sandboxes_dir : OadPaths → PathBuf
sandboxes_dir self = join self.base_dir (codes "sandboxes")

unfoldable pub cache_dir : OadPaths → PathBuf
cache_dir self = join self.base_dir (codes "cache")

unfoldable pub layer_cache_dir : OadPaths → PathBuf
unfolding cache_dir
layer_cache_dir self = join (cache_dir self) (codes "layers")

unfoldable pub manifest_cache_dir : OadPaths → PathBuf
unfolding cache_dir
manifest_cache_dir self = join (cache_dir self) (codes "manifests")

unfoldable pub rootfs_cache_dir : OadPaths → PathBuf
unfolding cache_dir
rootfs_cache_dir self = join (cache_dir self) (codes "rootfs")

unfoldable pub sandbox_dir : OadPaths → SandboxId → PathBuf
unfolding sandboxes_dir
sandbox_dir self id = join (sandboxes_dir self) id.as_str

unfoldable pub state_file : OadPaths → SandboxId → PathBuf
unfolding sandbox_dir
state_file self id = join (sandbox_dir self id) (codes "state.json")

unfoldable pub bundles_dir : OadPaths → SandboxId → PathBuf
unfolding sandbox_dir
bundles_dir self id = join (sandbox_dir self id) (codes "bundles")

unfoldable pub bundle_dir : OadPaths → SandboxId → Text → PathBuf
unfolding bundles_dir
bundle_dir self id container = join (bundles_dir self id) container

unfoldable pub rootfs_dir : OadPaths → SandboxId → Text → PathBuf
unfolding bundle_dir
rootfs_dir self id container = join (bundle_dir self id container) (codes "rootfs")

unfoldable pub rootfs_overlay_dir : OadPaths → SandboxId → Text → PathBuf
unfolding bundle_dir
rootfs_overlay_dir self id container = join (bundle_dir self id container) (codes "rootfs-overlay")

unfoldable pub checkpoint_dir : OadPaths → SandboxId → PathBuf
unfolding sandbox_dir
checkpoint_dir self id = join (sandbox_dir self id) (codes "checkpoint")

unfoldable pub sandbox_spec : OadPaths → SandboxId → PathBuf
unfolding sandbox_dir
sandbox_spec self id = join (sandbox_dir self id) (codes "spec.json")

unfoldable pub network_dir : OadPaths → PathBuf
network_dir self = join self.base_dir (codes "network")

unfoldable pub sandbox_network_state : OadPaths → SandboxId → PathBuf
unfolding sandbox_dir
sandbox_network_state self id = join (sandbox_dir self id) (codes "network.json")

unfoldable pub sandbox_resolv_conf : OadPaths → SandboxId → PathBuf
unfolding sandbox_dir
sandbox_resolv_conf self id = join (sandbox_dir self id) (codes "resolv.conf")

unfoldable pub envoy_config : OadPaths → PathBuf
unfolding network_dir
envoy_config self = join (network_dir self) (codes "envoy.json")

unfoldable pub envoy_log : OadPaths → PathBuf
unfolding network_dir
envoy_log self = join (network_dir self) (codes "envoy.log")

unfoldable pub envoy_access_log_socket : OadPaths → PathBuf
unfolding network_dir
envoy_access_log_socket self = join (network_dir self) (codes "envoy-access.sock")

unfoldable pub snapshots_dir : OadPaths → PathBuf
unfolding cache_dir
snapshots_dir self = join (cache_dir self) (codes "snapshots")

unfoldable pub snapshot_dir : OadPaths → Text → PathBuf
unfolding snapshots_dir
snapshot_dir self name = join (snapshots_dir self) name

unfoldable pub snapshot_checkpoint_dir : OadPaths → Text → PathBuf
unfolding snapshot_dir
snapshot_checkpoint_dir self name = join (snapshot_dir self name) (codes "checkpoint")

unfoldable pub snapshot_manifest : OadPaths → Text → PathBuf
unfolding snapshot_dir
snapshot_manifest self name = join (snapshot_dir self name) (codes "manifest.json")

unfoldable pub rootfs_staging_dir : OadPaths → SandboxId → Text → PathBuf
unfolding bundle_dir
rootfs_staging_dir self id container = join (bundle_dir self id container) (codes "rootfs-staging")

unfoldable pub rootfs_erofs : OadPaths → SandboxId → Text → PathBuf
unfolding bundle_dir
rootfs_erofs self id container = join (bundle_dir self id container) (codes "rootfs.erofs")

unfoldable pub config_json : OadPaths → SandboxId → Text → PathBuf
unfolding bundle_dir
config_json self id container = join (bundle_dir self id container) (codes "config.json")

unfoldable pub runsc_state_dir : OadPaths → SandboxId → PathBuf
unfolding sandbox_dir
runsc_state_dir self id = join (sandbox_dir self id) (codes "runsc-state")

unfoldable pub pidfiles_dir : OadPaths → SandboxId → PathBuf
unfolding sandbox_dir
pidfiles_dir self id = join (sandbox_dir self id) (codes "pidfiles")

unfoldable pub pidfile : OadPaths → SandboxId → Text → PathBuf
unfolding pidfiles_dir
pidfile self id container = join (pidfiles_dir self id) (container ++ codes ".pid")

unfoldable pub logs_dir : OadPaths → SandboxId → PathBuf
unfolding sandbox_dir
logs_dir self id = join (sandbox_dir self id) (codes "logs")

unfoldable pub container_log : OadPaths → SandboxId → Text → PathBuf
unfolding logs_dir
container_log self id container = join (logs_dir self id) (container ++ codes ".jsonl")
