-- ===== src/Api/Status.antt =====
-- api/v1alpha1/app_types.go: the status of an App. The string enumerations are data types, whose
-- `unset` is the empty string. A time is a number of nanoseconds, and `*metav1.Time` an `Option`.
use toggle_web_baker.Common.{ℕ, String, Bool, Option, List, Map}
use toggle_web_baker.Common.Int.{ℤ}
use toggle_web_baker.Domain.Storage.{ThresholdState}

pub data Phase : Type 0 where
  unset awaiting_first_build building ready degraded : Phase

pub data BuildResult : Type 0 where
  unset succeeded failed aborted : BuildResult

pub data StepStatus : Type 0 where
  pending running succeeded failed aborted : StepStatus

pub data BuildTrigger : Type 0 where
  unset scheduled manual spec_change commit : BuildTrigger

pub data BuildPhase : Type 0 where
  unset pending running complete : BuildPhase

pub data CleanupPhase : Type 0 where
  unset pending running succeeded failed : CleanupPhase

-- `metav1.ConditionStatus`
pub data ConditionStatus : Type 0 where
  is_true is_false is_unknown : ConditionStatus

-- `metav1.Condition`
pub record Condition : Type 0 where
  pub type_ : String
  pub status : ConditionStatus
  pub reason : String
  pub message : String
  pub last_transition_time : ℕ
  pub observed_generation : ℕ

pub record BuildStep : Type 0 where
  pub name : String
  pub status : StepStatus
  pub message : String
  pub peak_memory_bytes : ℕ
  pub started_at : Option ℕ
  pub finished_at : Option ℕ
  pub memory_limit : String

pub record BuildTermination : Type 0 where
  pub reason : String
  pub container : String
  pub exit_code : ℤ
  pub memory_limit : String
  pub finished_at : Option ℕ

pub record BuildStatus : Type 0 where
  pub phase : BuildPhase
  pub result : BuildResult
  pub job_name : String
  pub pod_name : String
  pub start_time : Option ℕ
  pub completion_time : Option ℕ
  pub attempts : ℕ
  pub trigger : BuildTrigger
  pub triggered_by : String
  pub commit : String
  pub steps : List BuildStep
  pub resolved_images : Map String
  pub failed_step : String
  pub message : String
  pub logs_ref : String
  pub termination : Option BuildTermination

pub record ReleaseStatus : Type 0 where
  pub current : String
  pub previous : String
  pub serving_since : Option ℕ

pub record StorageStatus : Type 0 where
  pub measured_at : Option ℕ
  pub sizes : Map ℤ
  pub last_run_deltas : Map ℤ
  pub threshold_state : ThresholdState
  pub release_count : ℤ
  pub capacities : Map ℤ

pub record CleanupActionStatus : Type 0 where
  pub requested_at : String
  pub requested_by : String
  pub phase : CleanupPhase
  pub started_at : Option ℕ
  pub completed_at : Option ℕ
  pub reclaimed_bytes : ℤ
  pub message : String

pub record CleanupStatus : Type 0 where
  pub cache : Option CleanupActionStatus
  pub releases : Option CleanupActionStatus

pub record ManualTrigger : Type 0 where
  pub triggered_by : String
  pub time : Option ℕ

pub record AppStatus : Type 0 where
  pub observed_generation : ℕ
  pub phase : Phase
  pub node_name : String
  pub url : String
  pub spec_stale : Bool
  pub conditions : List Condition
  pub build : BuildStatus
  pub consecutive_scheduled_failures : ℕ
  pub build_history : List BuildStatus
  pub failed_build_history : List BuildStatus
  pub last_processed_rebuild : String
  pub last_built_spec_hash : String
  pub last_build_time : Option ℕ
  pub last_successful_build_time : Option ℕ
  pub release : ReleaseStatus
  pub storage : StorageStatus
  pub last_manual_trigger : ManualTrigger
  pub cleanup : Option CleanupStatus
