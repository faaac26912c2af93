-- ===== src/Controller/Faults.antt =====
-- internal/controller/platformfault.go and termination.go: whose fault a failed build is, and how its
-- container ended.
pub mod Blame
use toggle_web_baker.Common.{
  ℕ, String, Bool, true, false, not, ◌||◌, Option, none, some, List, [], ◌∷◌, if◌then◌else◌, str_eq,
}
use toggle_web_baker.Api.Status.{BuildStep, BuildTermination}
use toggle_web_baker.Api.App.{
  reason_config_error, reason_oom_killed, reason_build_failed, step_copier, step_release,
  step_clone, step_setup, step_fetch, step_build,
}
use toggle_web_baker.Cluster.{Pod, ContainerStatus, Terminated}
use toggle_web_baker.Controller.Steps.{find_container_status, container_memory_limit, unless_zero}
use Prim.Native.String.{◌++◌ as str_append}

unfoldable pub is_platform_fault : String → String → Bool
is_platform_fault reason failed_step =
    if str_eq reason reason_config_error
    then true
    else if str_eq reason reason_oom_killed
    then str_eq failed_step step_copier
    else if not (str_eq reason reason_build_failed)
    then false
    else not (
        str_eq failed_step step_clone
        || str_eq failed_step step_setup
        || str_eq failed_step step_fetch
        || str_eq failed_step step_build)

abbrev pub termination_of : Pod → String → Terminated → BuildTermination
termination_of pod name t = record {
  reason = t.reason;
  container = name;
  exit_code = t.exit_code;
  memory_limit = container_memory_limit pod.spec name;
  finished_at = unless_zero t.finished_at none;
}

abbrev pub terminated_in : Pod → String → Option ContainerStatus → Option BuildTermination
terminated_in pod name none = none
terminated_in pod name (some cs) = elim cs.terminated [
  | none ↦ none
  | some t ↦ some (termination_of pod name t)
]

unfoldable pub detect_termination : Option Pod → String → Option BuildTermination
detect_termination none name = none
detect_termination (some pod) name =
    let statuses =
      if str_eq name step_copier then pod.container_statuses else pod.init_container_statuses in
    if str_eq name "" || str_eq name step_release
    then none
    else terminated_in pod name (find_container_status statuses name)

-- The first step of this name gets the message.
unfoldable pub stamp_step_message : List BuildStep → String → String → List BuildStep
stamp_step_message [] name msg = []
stamp_step_message (s ∷ steps) name msg =
    let rest = s ∷ stamp_step_message steps name msg in
    if str_eq s.name name then record s { message = msg } ∷ steps else rest

unfoldable pub termination_step_message : Option BuildTermination → String
termination_step_message none = ""
termination_step_message (some t) =
    if str_eq t.reason ""
    then ""
    else if not (str_eq t.memory_limit "")
    then str_append t.reason (str_append " (limit " (str_append t.memory_limit ")"))
    else t.reason

unfoldable pub oom_condition_message : BuildTermination → String
oom_condition_message t =
    if not (str_eq t.memory_limit "")
    then str_append "the " (
        str_append t.container
          (str_append " step exceeded its " (str_append t.memory_limit " memory limit")))
    else str_append "the " (str_append t.container " step was OOMKilled")
