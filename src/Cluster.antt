-- ===== src/Cluster.antt =====
-- The Kubernetes objects that internal/controller reads and writes, with the fields that it uses.
-- `metav1.Time` is a number of nanoseconds, 0 for Go's zero time.
use toggle_web_baker.Common.{ℕ, String, Bool, Option, List, Map}
use toggle_web_baker.Common.Int.{ℤ}

pub record EnvVar : Type 0 where
  pub name : String
  pub value : String

pub record VolumeMount : Type 0 where
  pub name : String
  pub mount_path : String
  pub read_only : Bool

-- A Secret volume with the keys that it projects, or a claim.
pub data VolumeSource : Type 0 where
  secret : String → List String → VolumeSource
  claim : String → Bool → VolumeSource
  empty_dir : VolumeSource

pub record Volume : Type 0 where
  pub name : String
  pub source : VolumeSource

-- `add` and `drop` are the capabilities; the seccomp profile is RuntimeDefault or absent.
pub record SecurityContext : Type 0 where
  pub run_as_user : Option ℤ
  pub run_as_non_root : Bool
  pub read_only_root_filesystem : Bool
  pub allow_privilege_escalation : Bool
  pub seccomp_runtime_default : Bool
  pub drop : List String
  pub add : List String

-- `memory_limit` is the text of the quantity under `resources.limits.memory`.
pub record Container : Type 0 where
  pub name : String
  pub image : String
  pub env : List EnvVar
  pub volume_mounts : List VolumeMount
  pub memory_limit : Option String
  pub security_context : Option SecurityContext

pub record PodSpec : Type 0 where
  pub node_name : String
  pub init_containers : List Container
  pub containers : List Container
  pub volumes : List Volume
  pub restart_policy : String
  pub automount_service_account_token : Option Bool
  pub run_as_non_root : Bool
  pub seccomp_runtime_default : Bool
  pub image_pull_secrets : List String

pub record Terminated : Type 0 where
  pub reason : String
  pub exit_code : ℤ
  pub message : String
  pub started_at : ℕ
  pub finished_at : ℕ

-- `running` holds the time at which the container started.
pub record ContainerStatus : Type 0 where
  pub name : String
  pub running : Option ℕ
  pub terminated : Option Terminated

pub record OwnerReference : Type 0 where
  pub uid : String
  pub controller : Option Bool

pub record Pod : Type 0 where
  pub name : String
  pub owner_references : List OwnerReference
  pub spec : PodSpec
  pub init_container_statuses : List ContainerStatus
  pub container_statuses : List ContainerStatus

pub data JobConditionType : Type 0 where
  job_complete job_failed job_other : JobConditionType

pub record JobCondition : Type 0 where
  pub type_ : JobConditionType
  pub is_true : Bool
  pub message : String

pub record Job : Type 0 where
  pub name : String
  pub namespace : String
  pub uid : String
  pub labels : Map String
  pub annotations : Map String
  pub ttl_seconds_after_finished : Option ℕ
  pub backoff_limit : Option ℕ
  pub active_deadline_seconds : Option ℕ
  pub template_labels : Map String
  pub template : PodSpec
  pub conditions : List JobCondition
