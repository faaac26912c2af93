-- ===== src/Controller/Cleanup/Job.antt =====
-- internal/controller/cleanup.go and naming.go: the helper Job of one cleanup mode. A mode that is not
-- `releases` is the cache, as in the source's `default` cases. `itoa` is `strconv.Itoa`.
pub mod Privileges
use Prim.Native.String.{◌++◌ as str_append}
use toggle_web_baker.Common.{
  ℕ, String, Bool, true, false, not, ◌&&◌, ◌||◌, Option, none, some, List, [], ◌∷◌, if◌then◌else◌,
  str_eq, Map, insert,
}
use toggle_web_baker.Common.Int.{ℤ, pos, eqb_ℤ}
use toggle_web_baker.Api.Spec.{AppSpec}
use toggle_web_baker.Api.App.{App}
use toggle_web_baker.Cluster.{
  EnvVar, VolumeMount, VolumeSource, claim, Volume, Container, SecurityContext, PodSpec, Job,
}

abbrev pub mode_cache : String
mode_cache = "cache"

abbrev pub mode_releases : String
mode_releases = "releases"

abbrev pub cleanup_mode_label : String
cleanup_mode_label = "baker.toggle-corp.com/cleanup-mode"

abbrev pub cleanup_container_name : String
cleanup_container_name = "cleanup"

abbrev pub platform_uid : ℤ
platform_uid = pos 65532

unfoldable pub labels_for : App → Map String
labels_for app =
    ("app.kubernetes.io/name", "app")
    ∷ ("app.kubernetes.io/instance", app.name)
    ∷ ("app.kubernetes.io/managed-by", "toggle-web-baker")
    ∷ []

unfoldable pub cleanup_labels_for : App → Map String
unfolding labels_for
cleanup_labels_for app = insert "baker.toggle-corp.com/role" "cleanup" (labels_for app)

unfoldable pub unprivileged_cleanup : ℤ → SecurityContext
unprivileged_cleanup uid = record {
  run_as_user = some uid;
  run_as_non_root = true;
  read_only_root_filesystem = false;
  allow_privilege_escalation = false;
  seccomp_runtime_default = true;
  drop = "ALL" ∷ [];
  add = [];
}

unfoldable pub root_cleanup : SecurityContext
root_cleanup = record {
  run_as_user = some (pos 0);
  run_as_non_root = false;
  read_only_root_filesystem = false;
  allow_privilege_escalation = false;
  seccomp_runtime_default = true;
  drop = "ALL" ∷ [];
  add = "DAC_OVERRIDE" ∷ "FOWNER" ∷ [];
}

-- The uid that both of setup and build pin, unless it is 0.
abbrev pub shared_uid : Option ℤ → Option ℤ → Option ℤ
shared_uid none bu = none
shared_uid (some su) none = none
shared_uid (some su) (some bu) = if not (eqb_ℤ su bu) || eqb_ℤ su (pos 0) then none else some su

unfoldable pub cache_writer_uid : AppSpec → Option ℤ
cache_writer_uid spec =
    let setup = spec.pipeline.phases.setup.phase in
    let build = spec.pipeline.phases.build.phase in shared_uid setup.run_as_user build.run_as_user

unfoldable pub of_writer : Option ℤ → SecurityContext
unfolding unprivileged_cleanup root_cleanup
of_writer none = root_cleanup
of_writer (some uid) = unprivileged_cleanup uid

unfoldable pub cleanup_security_context : AppSpec → String → SecurityContext
unfolding cache_writer_uid unprivileged_cleanup
cleanup_security_context spec mode =
    if str_eq mode mode_releases
    then unprivileged_cleanup platform_uid
    else of_writer (cache_writer_uid spec)

unfoldable pub cleanup_job_name : App → String → String
cleanup_job_name app mode = str_append app.name (str_append "-cleanup-" mode)

-- The release directories that are served or were served before, joined by commas.
unfoldable pub protected_releases : App → String
protected_releases app =
    let current = app.status.release.current in
    let previous = app.status.release.previous in
    if str_eq current ""
    then previous
    else if str_eq previous ""
    then current
    else str_append current (str_append "," previous)

abbrev pub pull_secrets : String → List String
pull_secrets secret = if str_eq secret "" then [] else secret ∷ []

-- What the Job mounts and is told: the output claim with the releases to keep, or the cache claim.
unfoldable pub cleanup_env : (ℕ → String) → App → String → List EnvVar
unfolding protected_releases
cleanup_env itoa app mode =
    if str_eq mode mode_releases
    then record { name = "MODE"; value = mode_releases }
      ∷ record { name = "RELEASES_DIR"; value = "/output/releases" }
      ∷ record { name = "KEEP_RELEASES"; value = itoa app.spec.keep_releases }
      ∷ record { name = "PROTECTED_RELEASES"; value = protected_releases app }
      ∷ []
    else record { name = "MODE"; value = mode_cache }
      ∷ record { name = "PACKAGE_MANAGER"; value = app.spec.pipeline.package_manager }
      ∷ record { name = "CLEANUP_THRESHOLD_BYTES"; value = "0" }
      ∷ []

unfoldable pub cleanup_mount : String → VolumeMount
cleanup_mount mode =
    if str_eq mode mode_releases
    then record { name = "output"; mount_path = "/output"; read_only = false }
    else record { name = "cache"; mount_path = "/cache"; read_only = false }

unfoldable pub cleanup_volume : App → String → Volume
cleanup_volume app mode =
    if str_eq mode mode_releases
    then record { name = "output"; source = claim (str_append app.name "-output") false }
    else record { name = "cache"; source = claim (str_append app.name "-cache") false }

-- `image` and `pull_secret` are `Config.Images.Cleanup` and `Config.ImagePullSecret`.
unfoldable pub cleanup_job : (ℕ → String) → String → String → App → String → Job
unfolding cleanup_labels_for cleanup_job_name cleanup_env cleanup_mount cleanup_volume
cleanup_job itoa image pull_secret app mode =
    let labels = insert cleanup_mode_label mode (cleanup_labels_for app) in
    record {
      name = cleanup_job_name app mode;
      namespace = app.namespace;
      uid = "";
      labels = labels;
      annotations = [];
      ttl_seconds_after_finished = none;
      backoff_limit = some 0;
      active_deadline_seconds = some 600;
      template_labels = labels;
      template = record {
        node_name = "";
        init_containers = [];
        containers =
            record {
              name = cleanup_container_name;
              image = image;
              env = cleanup_env itoa app mode;
              volume_mounts = cleanup_mount mode ∷ [];
              memory_limit = none;
              security_context = some (cleanup_security_context app.spec mode);
            }
            ∷ [];
        volumes = cleanup_volume app mode ∷ [];
        restart_policy = "Never";
        automount_service_account_token = some false;
        run_as_non_root = false;
        seccomp_runtime_default = true;
        image_pull_secrets = pull_secrets pull_secret;
      };
      conditions = [];
    }
