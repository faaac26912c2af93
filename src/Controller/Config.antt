-- ===== src/Controller/Config.antt =====
-- internal/controller/config.go: the configuration of the operator, read from its file, defaulted and
-- validated. Arguments are `time.ParseDuration`, the cron parser and `net.ParseCIDR`, each of which says
-- what it makes of a text, and `resource.ParseQuantity`, with the type of its quantities. The file is
-- given as it is decoded. A map is checked in the order of its entries, which decides the error only.
pub mod File
pub mod Load
pub mod Soundness
pub mod Loading
use toggle_web_baker.Common.{
  ℕ, ◌*◌, ◌^◌, String, Bool, true, false, not, ◌&&◌, ◌||◌, Option, none, some, List, [], ◌∷◌,
  if◌then◌else◌, str_eq, is_some, Map, lookup, codes, Codes, Result, ok, err, ◌>>=◌, ◌>>◌,
}
use toggle_web_baker.Common.Int.{ℤ, pos, ltb_ℤ, leb_ℤ, eqb_ℤ}
use toggle_web_baker.Domain.NodeImage.{NodeImage}
use toggle_web_baker.Domain.WatchSchedule.{WatchError, watch_cron}
use toggle_web_baker.Controller.Messages.{parse_int}
use toggle_web_baker.Controller.Credential.{GitAuth}
use toggle_web_baker.Controller.Config.File.{
  PlatformImages, PhaseResourceDefaults, OperatorConfig, ManagerOptions, FileConfig, ConfigError,
  bad_measure_interval, bad_schedule, bad_watch_interval, bad_quantity, out_of_range,
  secret_without_hosts, hosts_without_secret, unknown_package_manager, empty_command, empty_program,
  no_cluster_cidrs, no_traefik_group, bad_cidr, not_numeric, empty_image, no_uid, root_uid,
}

abbrev pub given : List String → Bool
given [] = false
given (_ ∷ _) = true

abbrev pub outside : ℤ → ℤ → ℤ → Bool
outside low high n = ltb_ℤ n low || ltb_ℤ high n

-- `if b { return …, e }`
abbrev pub reject : Bool → ConfigError → Result ConfigError (Unit {0})
reject b e = if b then err e else ok tt

abbrev pub memory_for_phase : {Q : Type 0} → PhaseResourceDefaults Q → String → Q
memory_for_phase d phase =
    if str_eq phase "setup"
    then d.memory_setup
    else if str_eq phase "fetch"
    then d.memory_fetch
    else d.memory_build

abbrev pub default_str : String → String → String
default_str v def = if str_eq v "" then def else v

abbrev pub default_int : Option ℤ → ℤ → ℤ
default_int none def = def
default_int (some v) def = v

-- `if c.X == 0 { c.X = def }`
abbrev pub default_zero : ℤ → ℤ → ℤ
default_zero v def = if eqb_ℤ v (pos 0) then def else v

unfoldable pub default_images : PlatformImages → PlatformImages
default_images i = record {
  clone =
      default_str i.clone
        "ghcr.io/toggle-corp/toggle-web-baker-clone@sha256:0000000000000000000000000000000000000000000000000000000000000000";
  copier =
      default_str i.copier
        "ghcr.io/toggle-corp/toggle-web-baker-copier@sha256:0000000000000000000000000000000000000000000000000000000000000000";
  du =
      default_str i.du
        "ghcr.io/toggle-corp/toggle-web-baker-du@sha256:0000000000000000000000000000000000000000000000000000000000000000";
  cleanup =
      default_str i.cleanup
        "ghcr.io/toggle-corp/toggle-web-baker-cleanup@sha256:0000000000000000000000000000000000000000000000000000000000000000";
  clock =
      default_str i.clock
        "ghcr.io/toggle-corp/toggle-web-baker-clock@sha256:0000000000000000000000000000000000000000000000000000000000000000";
  shim =
      default_str i.shim
        "ghcr.io/toggle-corp/toggle-web-baker-shim@sha256:0000000000000000000000000000000000000000000000000000000000000000";
  nginx = default_str i.nginx "docker.io/nginxinc/nginx-unprivileged:1.27-alpine";
}

abbrev pub one_hour : ℤ
one_hour = pos (3600 * 10 ^ 9)

unfoldable pub defaults : {Q : Type 0} → OperatorConfig Q → OperatorConfig Q
unfolding default_images
defaults c = record c {
  traefik_group = default_str c.traefik_group "traefik.io";
  measure_interval = if leb_ℤ c.measure_interval (pos 0) then one_hour else c.measure_interval;
  default_schedule = default_str c.default_schedule "0 */12 * * *";
  default_watch_interval = default_str c.default_watch_interval "10m";
  clone_retries = default_zero c.clone_retries (pos 3);
  history_keep_recent = default_zero c.history_keep_recent (pos 5);
  history_keep_failed = default_zero c.history_keep_failed (pos 10);
  scheduled_alert_threshold = default_zero c.scheduled_alert_threshold (pos 3);
  images = default_images c.images;
}

-- One entry of the node images.
unfoldable pub validate_node_image : String → NodeImage → Result ConfigError (Unit {0})
unfolding parse_int
validate_node_image major ni =
    reject (not (is_some (parse_int (codes major)))) (not_numeric major)
    >> (reject (str_eq ni.image "") (empty_image major) >> (elim ni.run_as_user [
      | none ↦ err (no_uid major)
      | some uid ↦ reject (ltb_ℤ uid (pos 1)) (root_uid major uid)
    ]))

unfoldable pub validate_node_images : Map NodeImage → Result ConfigError (Unit {0})
unfolding validate_node_image
validate_node_images [] = ok tt
validate_node_images ((major, ni) ∷ m) = validate_node_image major ni >> validate_node_images m

abbrev pub setup_command_fallbacks : Map (List String)
setup_command_fallbacks =
    ("yarn", "yarn" ∷ "install" ∷ "--frozen-lockfile" ∷ [])
    ∷ ("pnpm", "pnpm" ∷ "install" ∷ "--frozen-lockfile" ∷ [])
    ∷ []

abbrev pub or_fallback {ℓ} : {A : Type ℓ} → A → Option A → A
or_fallback a none = a
or_fallback a (some b) = b

-- The loop over the fallbacks.
abbrev pub merge_over : Map (List String) → Map (List String) → Map (List String)
merge_over file [] = []
merge_over file ((pm, fallback) ∷ rest) =
    (pm, or_fallback fallback (lookup pm file)) ∷ merge_over file rest

unfoldable pub merge_setup_commands : Map (List String) → Map (List String)
merge_setup_commands file = merge_over file setup_command_fallbacks

abbrev pub validate_argv : String → List String → Result ConfigError (Unit {0})
validate_argv pm [] = err (empty_command pm)
validate_argv pm (program ∷ rest) = reject (str_eq program "") (empty_program pm)

unfoldable pub validate_default_setup_commands : Map (List String) → Result ConfigError (Unit {0})
validate_default_setup_commands [] = ok tt
validate_default_setup_commands ((pm, argv) ∷ m) =
    reject (not (is_some (lookup pm setup_command_fallbacks))) (unknown_package_manager pm)
    >> (validate_argv pm argv >> validate_default_setup_commands m)

unfoldable pub default_setup_command :
    {Q : Type 0} → OperatorConfig Q → String → Option (List String)
default_setup_command c pm = lookup pm c.default_setup_commands

abbrev pub metadata_ip : String
metadata_ip = "169.254.169.254/32"

-- The checks of the numbers.
unfoldable pub check_numbers : FileConfig → Result ConfigError (Unit {0})
check_numbers fc =
    let retries = default_int fc.clone_retries (pos 3) in
    let delay = default_int fc.clone_retry_base_delay (pos 2) in
    let recent = default_int fc.history_keep_recent (pos 5) in
    let failed = default_int fc.history_keep_failed (pos 10) in
    let threshold = default_int fc.scheduled_alert_threshold (pos 3) in
    reject (leb_ℤ fc.active_deadline_seconds (pos 0))
      (out_of_range "activeDeadlineSeconds" fc.active_deadline_seconds)
    >> (reject (ltb_ℤ retries (pos 1)) (out_of_range "cloneRetries" retries)
        >> (reject (ltb_ℤ delay (pos 0)) (out_of_range "cloneRetryBaseDelay" delay)
            >> (reject (outside (pos 1) (pos 50) recent) (out_of_range "historyKeepRecent" recent)
                >> (reject (outside (pos 1) (pos 50) failed)
                      (out_of_range "historyKeepFailed" failed)
                    >> reject (ltb_ℤ threshold (pos 1))
                        (out_of_range "scheduledAlertThreshold" threshold)))))

unfoldable pub check_git_auth : GitAuth → Result ConfigError (Unit {0})
check_git_auth g =
    reject (not (str_eq g.secret_name "") && not (given g.hosts)) secret_without_hosts
    >> reject (str_eq g.secret_name "" && given g.hosts) hosts_without_secret

unfoldable pub file_checks : FileConfig → Result ConfigError (Unit {0})
unfolding check_numbers check_git_auth validate_default_setup_commands
file_checks fc =
    check_numbers fc
    >> (check_git_auth fc.git_auth >> validate_default_setup_commands fc.default_setup_commands)

unfoldable pub config_of :
    {Q : Type 0} → FileConfig → ℤ → String × String → PhaseResourceDefaults Q → OperatorConfig Q
unfolding merge_setup_commands
config_of fc interval (schedule, watch) resources = record {
  registry_allowlist = fc.registry_allowlist;
  cluster_cidrs = fc.cluster_cidrs;
  traefik_group = fc.traefik_group;
  image_pull_secret = fc.image_pull_secret;
  measure_interval = interval;
  default_schedule = schedule;
  default_watch_interval = watch;
  images = fc.images;
  node_images = fc.node_images;
  default_setup_commands = merge_setup_commands fc.default_setup_commands;
  phase_resource_defaults = resources;
  active_deadline_seconds = fc.active_deadline_seconds;
  git_auth = fc.git_auth;
  clone_retries = default_int fc.clone_retries (pos 3);
  clone_retry_base_delay = default_int fc.clone_retry_base_delay (pos 2);
  history_keep_recent = default_int fc.history_keep_recent (pos 5);
  history_keep_failed = default_int fc.history_keep_failed (pos 10);
  scheduled_alert_threshold = default_int fc.scheduled_alert_threshold (pos 3);
}

unfoldable pub manager_options : FileConfig → ManagerOptions
manager_options fc = record {
  metrics_bind_address = default_str fc.metrics_bind_address ":8080";
  health_probe_bind_address = default_str fc.health_probe_bind_address ":8081";
  leader_elect = elim fc.leader_elect [ none ↦ true | some b ↦ b ];
  storage_class = fc.storage_class;
  traefik_namespace = default_str fc.traefik_namespace "traefik";
}
