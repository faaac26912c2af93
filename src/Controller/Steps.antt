-- ===== src/Controller/Steps.antt =====
-- internal/controller/buildsteps.go: the pipeline steps of a build and their timeline.
pub mod Timeline
use toggle_web_baker.Common.{
  ℕ, suc, String, Bool, true, false, not, ◌&&◌, ◌||◌, Option, none, some, List, [], ◌∷◌, ◌++◌,
  if◌then◌else◌, ◌==◌, str_eq, first, map, is_some, lookup, text_at,
}
use toggle_web_baker.Common.Int.{ℤ, pos, eqb_ℤ}
use toggle_web_baker.Api.Spec.{PhaseSpec, SetupPhaseSpec, AppSpec}
use toggle_web_baker.Api.Status.{StepStatus, BuildStep, BuildTrigger}
use toggle_web_baker.Api.App.{
  App, step_clone, step_setup, step_fetch, step_build, step_copier, step_release,
  rebuild_by_annotation, rebuild_commit_annotation,
}
use toggle_web_baker.Cluster.{Container, ContainerStatus, Pod, PodSpec, Terminated}
use toggle_web_baker.Controller.Messages.{parse_peak_memory}

abbrev pub is_empty {ℓ} : {A : Type ℓ} → List A → Bool
is_empty [] = true
is_empty (_ ∷ _) = false

unfoldable pub phase_configured : PhaseSpec → Bool
phase_configured p = not (str_eq p.image "") || not (is_empty p.command)

unfoldable pub setup_runs : AppSpec → Bool
unfolding phase_configured
setup_runs spec =
    let setup = spec.pipeline.phases.setup in
    if setup.skip
    then false
    else phase_configured setup.phase || not (spec.pipeline.node_version == 0)

-- `default_setup_command` is the operator's command for a package manager.
unfoldable pub effective_setup : (String → List String) → AppSpec → Option PhaseSpec
effective_setup default_setup_command spec =
    let setup = spec.pipeline.phases.setup in
    if not (setup_runs spec)
    then none
    else if phase_configured setup.phase
    then some setup.phase
    else some (record setup.phase { command = default_setup_command spec.pipeline.package_manager })

unfoldable pub applicable_steps : AppSpec → List String
unfolding setup_runs phase_configured
applicable_steps spec =
    let setup = if setup_runs spec then step_setup ∷ [] else [] in
    let fetch = if phase_configured spec.pipeline.phases.fetch.phase then step_fetch ∷ [] else [] in
    step_clone ∷ setup ++ (fetch ++ (step_build ∷ step_copier ∷ step_release ∷ []))

-- The `switch` on a container's state; `none` is an absent container.
abbrev pub state_status : Option Terminated → Option ℕ → StepStatus
state_status (some t) running =
    if eqb_ℤ t.exit_code (pos 0) then StepStatus.succeeded else StepStatus.failed
state_status none (some _) = StepStatus.running
state_status none none = StepStatus.pending

unfoldable pub container_step_status : Option ContainerStatus → StepStatus
container_step_status none = StepStatus.pending
container_step_status (some cs) = state_status cs.terminated cs.running

unfoldable pub find_container_status : List ContainerStatus → String → Option ContainerStatus
find_container_status statuses name = first (λ cs. str_eq cs.name name) statuses

unfoldable pub container_ran : Option ContainerStatus → Bool
container_ran none = false
container_ran (some cs) = is_some cs.running || is_some cs.terminated

abbrev pub limit_of : Option Container → Option String
limit_of none = none
limit_of (some c) = elim c.memory_limit [ none ↦ some "" | some q ↦ some q ]

-- `containerMemoryLimit` of termination.go: the init containers first, then the main ones.
unfoldable pub container_memory_limit : PodSpec → String → String
container_memory_limit spec name =
    elim (limit_of (first (λ c. str_eq c.name name) spec.init_containers)) [
      | some q ↦ q
      | none ↦ elim (limit_of (first (λ c. str_eq c.name name) spec.containers)) [
        | some q ↦ q
        | none ↦ ""
      ]
    ]

-- A zero time is not recorded.
abbrev pub unless_zero : ℕ → Option ℕ → Option ℕ
unless_zero t old = if t == 0 then old else some t

abbrev pub stamp_times : BuildStep → Option Terminated → Option ℕ → BuildStep
stamp_times step (some t) running = record step {
  started_at = unless_zero t.started_at step.started_at;
  finished_at = unless_zero t.finished_at step.finished_at;
}
stamp_times step none (some started) = record step {
  started_at = unless_zero started step.started_at;
}
stamp_times step none none = step

unfoldable pub stamp_step_times : BuildStep → Option ContainerStatus → BuildStep
stamp_step_times step none = step
stamp_step_times step (some cs) = stamp_times step cs.terminated cs.running

abbrev pub pending_step : String → BuildStep
pending_step name = record {
  name = name;
  status = StepStatus.pending;
  message = "";
  peak_memory_bytes = 0;
  started_at = none;
  finished_at = none;
  memory_limit = "";
}

-- A step of a real container: its status, times, and the limit it ran with.
unfoldable pub container_step : Pod → String → Option ContainerStatus → BuildStep
unfolding container_step_status stamp_step_times container_ran container_memory_limit
container_step pod name cs =
    let step =
      stamp_step_times (record (pending_step name) { status = container_step_status cs }) cs in
    if container_ran cs
    then record step { memory_limit = container_memory_limit pod.spec name }
    else step

abbrev pub with_peak : Option ContainerStatus → BuildStep → BuildStep
with_peak none step = step
with_peak (some cs) step = elim cs.terminated [
  | none ↦ step
  | some t ↦ record step { peak_memory_bytes = parse_peak_memory t.message }
]

-- The copier is the main container; clone, setup, fetch and build are init containers.
unfoldable pub main_step : Pod → String → BuildStep
unfolding container_step find_container_status
main_step p name = container_step p name (find_container_status p.container_statuses name)

unfoldable pub init_step : Pod → String → BuildStep
unfolding container_step find_container_status
init_step p name =
    let cs = find_container_status p.init_container_statuses name in
    with_peak cs (container_step p name cs)

-- The step of one name, from the build pod.
unfoldable pub derive_step : String → Option Pod → Bool → BuildStep
derive_step name pod release_done =
    if str_eq name step_release
    then (if release_done
        then record (pending_step name) { status = StepStatus.succeeded }
        else pending_step name)
    else (elim pod [
      | none ↦ pending_step name
      | some p ↦ if str_eq name step_copier then main_step p name else init_step p name
    ])

unfoldable pub derive_build_steps : List String → Option Pod → Bool → List BuildStep
derive_build_steps applicable pod release_done =
    map (λ name. derive_step name pod release_done) applicable

unfoldable pub all_succeeded : List String → List BuildStep
all_succeeded applicable =
    map (λ name. record (pending_step name) { status = StepStatus.succeeded }) applicable

abbrev pub is_failing : StepStatus → Bool
is_failing StepStatus.failed = true
is_failing StepStatus.aborted = true
is_failing StepStatus.pending = false
is_failing StepStatus.running = false
is_failing StepStatus.succeeded = false

abbrev pub name_or_empty : Option BuildStep → String
name_or_empty none = ""
name_or_empty (some s) = s.name

unfoldable pub failed_step : List BuildStep → String
failed_step steps = name_or_empty (first (λ s. is_failing s.status) steps)

unfoldable pub classify_trigger : App → BuildTrigger
classify_trigger app =
    if not (str_eq (text_at rebuild_by_annotation app.annotations) "")
    then BuildTrigger.manual
    else if not (str_eq (text_at rebuild_commit_annotation app.annotations) "")
    then BuildTrigger.commit
    else BuildTrigger.scheduled
