-- ===== src/Api/Spec.antt =====
-- api/v1alpha1/app_types.go: the spec of an App, as far as the modelled operations read it. A pointer
-- is an `Option`; an optional slice is empty where it is omitted.
use toggle_web_baker.Common.{ℕ, String, Bool, Option, List, Map}
use toggle_web_baker.Common.Int.{ℤ}

-- `valueFrom` reads a key of a ConfigMap: its name and its key.
pub record EnvVar : Type 0 where
  pub name : String
  pub value : String
  pub value_from : Option (String × String)

pub record SecretKeySelector : Type 0 where
  pub name : String
  pub key : String

pub record EnvVarWithSecret : Type 0 where
  pub name : String
  pub secret_key_ref : SecretKeySelector

pub record PhaseSpec : Type 0 where
  pub image : String
  pub command : List String
  pub env : List EnvVar
  pub env_map : Map String
  pub run_as_user : Option ℤ
  pub memory_limit : String

pub record BuildPhaseSpec : Type 0 where
  pub phase : PhaseSpec
  pub output_dir : String

pub record FetchPhaseSpec : Type 0 where
  pub phase : PhaseSpec
  pub secrets : List EnvVarWithSecret

pub record SetupPhaseSpec : Type 0 where
  pub phase : PhaseSpec
  pub skip : Bool

pub record PhasesSpec : Type 0 where
  pub setup : SetupPhaseSpec
  pub fetch : FetchPhaseSpec
  pub build : BuildPhaseSpec

-- `node_version` is 0 where it is unset, and at least 1 otherwise.
pub record PipelineSpec : Type 0 where
  pub package_manager : String
  pub node_version : ℕ
  pub phases : PhasesSpec

pub record CacheThresholds : Type 0 where
  pub cleanup_bytes : ℤ
  pub alert_bytes : ℤ

pub record DataCacheThresholds : Type 0 where
  pub cleanup_bytes : ℤ
  pub alert_bytes : ℤ
  pub run_delta_bytes : ℤ

pub record OutputThresholds : Type 0 where
  pub alert_bytes : ℤ
  pub cap_bytes : ℤ

pub record StorageSpec : Type 0 where
  pub cache : CacheThresholds
  pub data_cache : DataCacheThresholds
  pub output : OutputThresholds

pub record ScheduledBuildsSpec : Type 0 where
  pub enabled : Bool
  pub schedule : String
  pub alert_threshold : ℕ

pub record WatchCommitsSpec : Type 0 where
  pub enabled : Bool
  pub interval : String

pub record HistorySpec : Type 0 where
  pub keep_recent : ℕ
  pub keep_failed : ℕ

-- `repo_auth` is the name of the Secret that overrides the operator's credential.
pub record AppSpec : Type 0 where
  pub repo : String
  pub ref : String
  pub scheduled_builds : Option ScheduledBuildsSpec
  pub watch_commits : Option WatchCommitsSpec
  pub pipeline : PipelineSpec
  pub keep_releases : ℕ
  pub repo_auth : Option String
  pub storage : StorageSpec
  pub history : Option HistorySpec
