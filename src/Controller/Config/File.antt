-- ===== src/Controller/Config/File.antt =====
-- internal/controller/config.go: the configuration, the file that it is read from and its errors.
use toggle_web_baker.Common.{String, Bool, Option, List, Map}
use toggle_web_baker.Common.Int.{ℤ}
use toggle_web_baker.Domain.NodeImage.{NodeImage}
use toggle_web_baker.Domain.WatchSchedule.{WatchError}
use toggle_web_baker.Controller.Credential.{GitAuth}

pub record PlatformImages : Type 0 where
  pub clone : String
  pub copier : String
  pub du : String
  pub cleanup : String
  pub clock : String
  pub shim : String
  pub nginx : String

pub record PhaseResourceDefaults (Q : Type 0) : Type 0 where
  pub cpu_request : Q
  pub cpu_limit : Q
  pub memory_setup : Q
  pub memory_fetch : Q
  pub memory_build : Q

pub record OperatorConfig (Q : Type 0) : Type 0 where
  pub registry_allowlist : List String
  pub cluster_cidrs : List String
  pub traefik_group : String
  pub image_pull_secret : String
  pub measure_interval : ℤ
  pub default_schedule : String
  pub default_watch_interval : String
  pub images : PlatformImages
  pub node_images : Map NodeImage
  pub default_setup_commands : Map (List String)
  pub phase_resource_defaults : PhaseResourceDefaults Q
  pub active_deadline_seconds : ℤ
  pub git_auth : GitAuth
  pub clone_retries : ℤ
  pub clone_retry_base_delay : ℤ
  pub history_keep_recent : ℤ
  pub history_keep_failed : ℤ
  pub scheduled_alert_threshold : ℤ

pub record ManagerOptions : Type 0 where
  pub metrics_bind_address : String
  pub health_probe_bind_address : String
  pub leader_elect : Bool
  pub storage_class : String
  pub traefik_namespace : String

-- The file: a pointer is an `Option`, the resources are their texts.
pub record FileConfig : Type 0 where
  pub metrics_bind_address : String
  pub health_probe_bind_address : String
  pub leader_elect : Option Bool
  pub registry_allowlist : List String
  pub cluster_cidrs : List String
  pub traefik_group : String
  pub traefik_namespace : String
  pub image_pull_secret : String
  pub storage_class : String
  pub measure_interval : String
  pub default_schedule : String
  pub default_watch_interval : String
  pub images : PlatformImages
  pub node_images : Map NodeImage
  pub default_setup_commands : Map (List String)
  pub phase_resources : PhaseResourceDefaults String
  pub active_deadline_seconds : ℤ
  pub clone_retries : Option ℤ
  pub clone_retry_base_delay : Option ℤ
  pub history_keep_recent : Option ℤ
  pub history_keep_failed : Option ℤ
  pub scheduled_alert_threshold : Option ℤ
  pub git_auth : GitAuth

pub data ConfigError : Type 0 where
  bad_measure_interval bad_schedule : String → ConfigError
  bad_watch_interval : WatchError → ConfigError
  bad_quantity : String → String → ConfigError
  out_of_range : String → ℤ → ConfigError
  secret_without_hosts hosts_without_secret : ConfigError
  unknown_package_manager empty_command empty_program : String → ConfigError
  no_cluster_cidrs no_traefik_group : ConfigError
  bad_cidr : String → ConfigError
  not_numeric empty_image no_uid : String → ConfigError
  root_uid : String → ℤ → ConfigError
