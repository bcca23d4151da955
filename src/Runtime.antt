-- ===== src/Runtime.antt =====
-- The command lines of runsc: `Runsc` of crates/oad-runtime/src/lib.rs. `display` of a path is its
-- text.
pub mod Exec
pub mod Calls
pub mod Sequence
use omniagent.Prelude.{
  Bool, true, false, Option, none, some, List, [], ◌∷◌, ◌++◌, Text, codes, if◌then◌else◌,
}
use omniagent.Core.Paths.Join.{PathBuf}
use omniagent.Core.Spec.{NetworkMode}

pub data RunscNetworkMode : Type 0 where
  sandbox host : RunscNetworkMode

unfoldable pub from_network_mode : NetworkMode → RunscNetworkMode
from_network_mode NetworkMode.sandbox = sandbox
from_network_mode NetworkMode.host = host

unfoldable pub to_network_mode : RunscNetworkMode → NetworkMode
to_network_mode sandbox = NetworkMode.sandbox
to_network_mode host = NetworkMode.host

pub data RestoreSpecValidation : Type 0 where
  enforce warning : RestoreSpecValidation

unfoldable pub as_runsc_arg : RestoreSpecValidation → Text
as_runsc_arg enforce = codes "enforce"
as_runsc_arg warning = codes "warning"

pub record Runsc : Type 0 where
  pub state_dir : PathBuf
  pub network_mode : RunscNetworkMode

abbrev pub save_restore_netstack_arg : Text
save_restore_netstack_arg = codes "-save-restore-netstack=true"

log_args : Option PathBuf → List Text
log_args none = []
log_args (some log_path) = codes "-log" ∷ log_path ∷ []

unfoldable pub base_args : Runsc → Option PathBuf → List Text
unfolding log_args
base_args self log_path =
    codes "-log-format" ∷ codes "json" ∷ []
    ++ log_args log_path
    ++ codes "-root" ∷ self.state_dir ∷ []

unfoldable pub network_args : RunscNetworkMode → List Text
network_args host = codes "-network" ∷ codes "host" ∷ []
network_args sandbox = []

unfoldable pub base_args_with_network : Runsc → Option PathBuf → List Text
unfolding base_args network_args
base_args_with_network self log_path = base_args self log_path ++ network_args self.network_mode

unfoldable pub overlay_arg : PathBuf → Text
overlay_arg overlay_dir = codes "--overlay2=root:dir=" ++ overlay_dir

unfoldable pub create_args : Runsc → PathBuf → PathBuf → Text → PathBuf → List Text
unfolding base_args_with_network overlay_arg
create_args self bundle_dir pidfile container overlay_dir =
    base_args_with_network self none
    ++ overlay_arg overlay_dir
      ∷ codes "create"
      ∷ codes "-bundle"
      ∷ bundle_dir
      ∷ codes "-pid-file"
      ∷ pidfile
      ∷ container
      ∷ []

unfoldable pub start_args : Runsc → Text → PathBuf → List Text
unfolding base_args_with_network overlay_arg
start_args self container overlay_dir =
    base_args_with_network self none
    ++ codes "-net-disconnect-ok=true"
      ∷ save_restore_netstack_arg
      ∷ overlay_arg overlay_dir
      ∷ codes "start"
      ∷ container
      ∷ []

unfoldable pub checkpoint_args : Runsc → Text → PathBuf → PathBuf → Bool → List Text
unfolding base_args overlay_arg
checkpoint_args self container image_dir overlay_dir leave_running =
    base_args self none
    ++ overlay_arg overlay_dir ∷ codes "checkpoint" ∷ []
    ++ (if leave_running then codes "-leave-running" ∷ [] else [])
    ++ codes "-image-path" ∷ image_dir ∷ container ∷ []

unfoldable pub restore_args :
    Runsc → Text → PathBuf → PathBuf → PathBuf → PathBuf → RestoreSpecValidation → List Text
unfolding base_args_with_network overlay_arg as_runsc_arg
restore_args self container bundle_dir image_dir pidfile overlay_dir spec_validation =
    base_args_with_network self none
    ++ save_restore_netstack_arg
      ∷ overlay_arg overlay_dir
      ∷ codes "-restore-spec-validation"
      ∷ as_runsc_arg spec_validation
      ∷ codes "restore"
      ∷ codes "-bundle"
      ∷ bundle_dir
      ∷ codes "-image-path"
      ∷ image_dir
      ∷ codes "-pid-file"
      ∷ pidfile
      ∷ codes "-detach"
      ∷ container
      ∷ []

unfoldable pub delete_args : Runsc → Text → Option PathBuf → List Text
unfolding base_args
delete_args self container log_path =
    base_args self log_path ++ codes "delete" ∷ codes "-force" ∷ container ∷ []

unfoldable pub state_args : Runsc → Text → Option PathBuf → List Text
unfolding base_args
state_args self container log_path = base_args self log_path ++ codes "state" ∷ container ∷ []

unfoldable pub cwd_args : Option Text → List Text
cwd_args none = []
cwd_args (some cwd) = codes "-cwd" ∷ cwd ∷ []

unfoldable pub env_args : List Text → List Text
env_args [] = []
env_args (var ∷ env) = codes "-env" ∷ var ∷ env_args env

unfoldable pub exec_args :
    Runsc → Text → List Text → List Text → Option Text → Option PathBuf → List Text
unfolding base_args cwd_args env_args
exec_args self container command env cwd log_path =
    base_args self log_path
    ++ codes "exec" ∷ []
    ++ cwd_args cwd
    ++ env_args env
    ++ codes "--" ∷ container ∷ command
