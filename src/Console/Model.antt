-- ===== src/Console/Model.antt =====
-- console/internal/view/model.go: the view of an App. A field that the status lacks is at Go's zero
-- value. The live usage of a build, which the server fills in later, is left out.
use toggle_web_baker.Common.{String, Bool, Option, List}
use toggle_web_baker.Common.Int.{ℤ}

pub record Condition : Type 0 where
  pub type_ : String
  pub status : String
  pub reason : String
  pub message : String
  pub last_transition_time : String

pub record Step : Type 0 where
  pub name : String
  pub status : String
  pub message : String
  pub peak_memory : String
  pub memory_limit : String
  pub started_at : String
  pub finished_at : String

pub record Termination : Type 0 where
  pub reason : String
  pub container : String
  pub memory_limit : String
  pub finished_at : String
  pub exit_code : ℤ

pub record Build : Type 0 where
  pub phase : String
  pub result : String
  pub job_name : String
  pub pod_name : String
  pub trigger : String
  pub triggered_by : String
  pub commit : String
  pub start_time : String
  pub completion_time : String
  pub attempts : ℤ
  pub failed_step : String
  pub message : String
  pub logs_ref : String
  pub steps : List Step
  pub termination : Option Termination

pub record Release : Type 0 where
  pub current : String
  pub previous : String
  pub serving_since : String

pub record StorageVolume : Type 0 where
  pub name : String
  pub bytes : ℤ
  pub human : String
  pub delta : String
  pub cap : ℤ
  pub cap_human : String
  pub bar_pct : ℤ
  pub over : Bool
  pub has_bar : Bool
  pub releases : ℤ

pub record Storage : Type 0 where
  pub measured_at : String
  pub threshold_state : String
  pub release_count : ℤ
  pub volumes : List StorageVolume

pub record CleanupAction : Type 0 where
  pub requested_at : String
  pub requested_by : String
  pub phase : String
  pub last_completed : String
  pub message : String
  pub reclaimed_bytes : ℤ

pub record Cleanup : Type 0 where
  pub cache : CleanupAction
  pub releases : CleanupAction

pub record ManualTrigger : Type 0 where
  pub triggered_by : String
  pub time : String

pub record ScheduledBuilds : Type 0 where
  pub enabled : Bool
  pub schedule : String

pub record WatchCommits : Type 0 where
  pub enabled : Bool
  pub interval : String
  pub last_seen_sha : String

pub record App : Type 0 where
  pub namespace : String
  pub name : String
  pub group : String
  pub observed_generation : ℤ
  pub phase : String
  pub node_name : String
  pub url : String
  pub spec_stale : Bool
  pub conditions : List Condition
  pub build : Build
  pub build_history : List Build
  pub last_processed_rebuild : String
  pub last_built_spec_hash : String
  pub last_build_time : String
  pub last_successful_build : String
  pub next_scheduled_build_time : String
  pub release : Release
  pub storage : Storage
  pub cleanup : Cleanup
  pub manual_trigger : ManualTrigger
  pub repo : String
  pub scheduled_builds : ScheduledBuilds
  pub watch_commits : WatchCommits
  pub has_status : Bool
