-- ===== src/Tests/CoreTests.antt =====
-- crates/oad-core/src/lib.rs: names that are accepted and refused, and paths.
use omniagent.Prelude.{◌≡◌, refl, ◌↔◌, ◌≢◌, ◌∷◌, ◌++◌, Text, codes, ok, err}
use omniagent.Core.Ids.{
  SandboxId, unsupported_character, reserved_path_segment, validate_id_segment,
  validate_container_name, new,
}
use omniagent.Core.Ids.Laws.{
  IsSegment, AllIdChars, IsIdChar, validate_id_segment_iff, validate_container_name_iff,
  validate_id_segment-unsupported, new-IsSegment,
}
use omniagent.Core.Paths.{OadPaths, sandbox_dir, snapshot_dir, config_json, pidfile}
use omniagent.Core.Paths.Join.{join}
use omniagent.Core.Paths.Isolation.{
  sandbox_dirs_disjoint, snapshot_outside_sandboxes, bundle_dirs_disjoint,
}

abbrev web : SandboxId
web = record { as_str = codes "web-1" }

abbrev paths : OadPaths
paths = record { base_dir = codes "/var/lib/oad" }

web_accepted : validate_id_segment (codes "web-1") ≡ ok tt
unfolding validate_id_segment
web_accepted = refl

dot_dot_refused : validate_id_segment (codes "..") ≡ err (reserved_path_segment (codes ".."))
unfolding validate_id_segment
dot_dot_refused = refl

slash_refused : validate_id_segment (codes "a/b") ≡ err (unsupported_character b'/')
unfolding validate_id_segment
slash_refused = refl

web-IsSegment : IsSegment (codes "web-1")
web-IsSegment = (validate_id_segment_iff (codes "web-1")).0 web_accepted

validate_id_segment_iff_example :
    (validate_id_segment (codes "web-1") ≡ ok tt) ↔ IsSegment (codes "web-1")
validate_id_segment_iff_example = validate_id_segment_iff (codes "web-1")

validate_container_name_iff_example :
    (validate_container_name (codes "pause") ≡ ok tt)
    ↔ (IsSegment (codes "pause") × (codes "pause" ≢ codes "pause"))
validate_container_name_iff_example = validate_container_name_iff (codes "pause")

validate_id_segment-unsupported_example :
    (p : Text) × (q : Text) × (codes "a/b" ≡ p ++ b'/' ∷ q) × AllIdChars p × ¬ IsIdChar b'/'
validate_id_segment-unsupported_example =
    validate_id_segment-unsupported (codes "a/b") b'/' slash_refused

web_made : new (codes "web-1") ≡ ok web
unfolding new
web_made = refl

new-IsSegment_example : (web.as_str ≡ codes "web-1") × IsSegment web.as_str
new-IsSegment_example = new-IsSegment (codes "web-1") web web_made

config_of_web :
    config_json paths web (codes "app")
    ≡ codes "/var/lib/oad/sandboxes/web-1/bundles/app/config.json"
unfolding config_json join
config_of_web = refl

pidfile_of_web :
    pidfile paths web (codes "app") ≡ codes "/var/lib/oad/sandboxes/web-1/pidfiles/app.pid"
unfolding pidfile join
pidfile_of_web = refl

sandbox_dirs_disjoint_example : (web ≡ web) × (codes "state.json" ≡ codes "state.json")
sandbox_dirs_disjoint_example =
    sandbox_dirs_disjoint paths web web (codes "state.json") (codes "state.json") web-IsSegment
      web-IsSegment refl refl refl

snapshot_outside_sandboxes_example :
    join (sandbox_dir paths web) (codes "checkpoint")
    ≢ join (snapshot_dir paths (codes "web-1")) (codes "checkpoint")
snapshot_outside_sandboxes_example =
    snapshot_outside_sandboxes paths web (codes "web-1") (codes "checkpoint") (codes "checkpoint")
      web-IsSegment web-IsSegment refl refl

bundle_dirs_disjoint_example :
    (web ≡ web) × (codes "web-1" ≡ codes "web-1") × (codes "rootfs" ≡ codes "rootfs")
bundle_dirs_disjoint_example =
    bundle_dirs_disjoint paths web web (codes "web-1") (codes "web-1") (codes "rootfs")
      (codes "rootfs") web-IsSegment web-IsSegment web-IsSegment web-IsSegment refl refl refl
