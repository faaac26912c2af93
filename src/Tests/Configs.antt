-- ===== src/Tests/Configs.antt =====
-- A configuration file, and the theorems about loading it.
use toggle_web_baker.Common.{
  String, Bool, true, not, ◌≡◌, refl, Option, none, some, [], ◌∷◌, ok, All, str_eq,
}
use toggle_web_baker.Common.Int.{ℤ, pos}
use toggle_web_baker.Controller.Config.File.{
  PlatformImages, PhaseResourceDefaults, OperatorConfig, FileConfig,
}
use toggle_web_baker.Controller.Config.{given, manager_options, config_of, defaults, one_hour}
use toggle_web_baker.Controller.Config.Load.{validate, load_config}
use toggle_web_baker.Controller.Config.Soundness.{InBounds}
use toggle_web_baker.Controller.Config.Loading.{NodeSound, load_config-InBounds, load_config-IsSafe}

abbrev pub is_cidr : String → Bool
is_cidr text = not (str_eq text "")

abbrev pub parse_duration : String → Option ℤ
parse_duration text = some (pos 600000000000)

abbrev is_cron : String → Bool
is_cron text = true

abbrev parse_quantity : String → Option String
parse_quantity text = some text

abbrev no_images : PlatformImages
no_images = record {
  clone = "";
  copier = "";
  du = "";
  cleanup = "";
  clock = "";
  shim = "";
  nginx = "";
}

abbrev pub resources : PhaseResourceDefaults String
resources = record {
  cpu_request = "100m";
  cpu_limit = "2";
  memory_setup = "1Gi";
  memory_fetch = "1Gi";
  memory_build = "2Gi";
}

abbrev pub file : FileConfig
file = record {
  metrics_bind_address = "";
  health_probe_bind_address = "";
  leader_elect = none;
  registry_allowlist = "ghcr.io/org/" ∷ [];
  cluster_cidrs = "10.0.0.0/8" ∷ [];
  traefik_group = "";
  traefik_namespace = "";
  image_pull_secret = "";
  storage_class = "local-path";
  measure_interval = "";
  default_schedule = "";
  default_watch_interval = "";
  images = no_images;
  node_images =
      ("20", record { image = "cimg/node:20"; run_as_user = some (pos 3434); home = "" }) ∷ [];
  default_setup_commands = [];
  phase_resources = resources;
  active_deadline_seconds = pos 3600;
  clone_retries = none;
  clone_retry_base_delay = none;
  history_keep_recent = none;
  history_keep_failed = some (pos 20);
  scheduled_alert_threshold = none;
  git_auth = record { secret_name = ""; hosts = [] };
}

abbrev loaded : OperatorConfig String
loaded = defaults (config_of file one_hour ("0 */12 * * *", "10m") resources)

load_config-InBounds_example : InBounds loaded
unfolding load_config
load_config-InBounds_example =
    load_config-InBounds is_cidr parse_duration is_cron parse_quantity file loaded
      (manager_options file) refl

load_config-IsSafe_example :
    (given loaded.cluster_cidrs ≡ true)
    × All (λ x. is_cidr x ≡ true) loaded.cluster_cidrs
    × All NodeSound loaded.node_images
    × (not (str_eq loaded.git_auth.secret_name "") ≡ given loaded.git_auth.hosts)
    × (validate is_cidr loaded ≡ ok tt)
unfolding load_config
load_config-IsSafe_example =
    load_config-IsSafe is_cidr parse_duration is_cron parse_quantity file loaded
      (manager_options file) refl
