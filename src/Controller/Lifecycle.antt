-- ===== src/Controller/Lifecycle.antt =====
-- internal/controller/app_controller.go: `observeBuild`, which follows the build Job and records its
-- result, with `findBuildPod` and `applyCopierTermination`. Here are the writings into the App.
-- `unmarshal` is `json.Unmarshal` of a copier's message, and `digest` the hash of a build spec.
pub mod Observe
pub mod Writings
pub mod Outcome
pub mod Once
pub mod LastGood
pub mod Verdict
pub mod Evidence
use toggle_web_baker.Common.{
  ℕ, String, Bool, true, false, not, ◌&&◌, ◌||◌, Option, none, some, List, [], ◌∷◌, if◌then◌else◌,
  str_eq, Map, insert_all, remove, text_at, is_some, ltb,
}
use toggle_web_baker.Common.Int.{ℤ, pos, ltb_ℤ}
use toggle_web_baker.Api.Status.{
  BuildPhase, BuildResult, BuildStatus, BuildTermination, StorageStatus, ReleaseStatus, is_true,
  is_false,
}
use toggle_web_baker.Api.App.{
  App, spec_hash_annotation, condition_build_succeeded, condition_degraded, reason_ready,
  reason_build_failed, reason_oom_killed,
}
use toggle_web_baker.Cluster.{
  Pod, Job, JobCondition, JobConditionType, job_complete, job_failed, job_other, Terminated,
}
use toggle_web_baker.Domain.BuildSpec as BuildSpec
use toggle_web_baker.Observability.Reporter.{TerminalFailure}
use toggle_web_baker.Controller.Steps.{
  applicable_steps, derive_build_steps, all_succeeded, failed_step,
}
use toggle_web_baker.Controller.Conditions.{set_condition, is_complete}
use toggle_web_baker.Controller.Faults.{
  is_platform_fault, detect_termination, stamp_step_message, termination_step_message,
  oom_condition_message,
}
use toggle_web_baker.Controller.History.{
  append_build_history, append_failed_build_history, update_consecutive_scheduled_failures,
}
use toggle_web_baker.Controller.Inputs.{Defaults, build_spec_from, effective_history_limits}

pub record CopierMessage : Type 0 where
  pub current : String
  pub sizes : Map ℤ
  pub release_count : ℤ

unfoldable pub parse_copier_message :
    (String → Option CopierMessage) → String → Option CopierMessage
parse_copier_message unmarshal s = if str_eq s "" then none else unmarshal s

-- The three parts of the message, each where it is reported.
abbrev pub with_release : ℕ → String → ReleaseStatus → ReleaseStatus
with_release now current release =
    if str_eq current ""
    then release
    else record { current = current; previous = release.current; serving_since = some now }

abbrev pub with_count : ℤ → StorageStatus → StorageStatus
with_count n storage = if ltb_ℤ (pos 0) n then record storage { release_count = n } else storage

abbrev pub with_sizes : ℕ → Map ℤ → StorageStatus → StorageStatus
with_sizes now [] storage = storage
with_sizes now (e ∷ sizes) storage = record storage {
  sizes = remove "source" (insert_all (e ∷ sizes) storage.sizes);
  measured_at = some now;
}

unfoldable pub apply_message : ℕ → CopierMessage → App → App
apply_message now blob app = record app {
  status = record app.status {
    release = with_release now blob.current app.status.release;
    storage = with_sizes now blob.sizes (with_count blob.release_count app.status.storage);
  };
}

unfoldable pub apply_parsed : ℕ → Option CopierMessage → App → App
unfolding apply_message
apply_parsed now none app = app
apply_parsed now (some blob) app = apply_message now blob app

-- The copier that was chosen: its node, and its message where it can be parsed.
unfoldable pub apply_copier :
    (String → Option CopierMessage) → ℕ → Option (Pod × Terminated) → App → App
unfolding parse_copier_message apply_message
apply_copier unmarshal now none app = app
apply_copier unmarshal now (some (pod, t)) app =
    apply_parsed now (parse_copier_message unmarshal t.message)
      (record app { status = record app.status { node_name = pod.spec.node_name } })

abbrev pub is_success : BuildResult → Bool
is_success BuildResult.succeeded = true
is_success BuildResult.unset = false
is_success BuildResult.failed = false
is_success BuildResult.aborted = false

abbrev pub is_failure : BuildResult → Bool
is_failure BuildResult.failed = true
is_failure BuildResult.unset = false
is_failure BuildResult.succeeded = false
is_failure BuildResult.aborted = false

-- The build was observed to its end before. The source also tests that the Job's name is the build's;
-- the Job was fetched by that name.
unfoldable pub settled : App → Bool
settled app =
    is_complete app.status.build.phase
    && (is_success app.status.build.result || is_failure app.status.build.result)

abbrev pub with_build : App → BuildStatus → App
with_build app b = record app { status = record app.status { build = b } }

-- A Job in flight: the timeline of its pod, once there is one.
unfoldable pub with_pod : Option Pod → App → App
unfolding applicable_steps derive_build_steps
with_pod none app = app
with_pod (some pod) app = with_build app (record app.status.build {
  pod_name = pod.name;
  steps = derive_build_steps (applicable_steps app.spec) (some pod) false;
})

unfoldable pub in_flight : Option Pod → App → App
unfolding applicable_steps derive_build_steps
in_flight pod app =
    with_pod pod (with_build app (record app.status.build { phase = BuildPhase.running }))

unfoldable pub completed : ℕ → App → App
completed now app =
    with_build app
      (record app.status.build { phase = BuildPhase.complete; completion_time = some now })

module _ (digest : BuildSpec.BuildSpec → String) where
  -- The hash stamped on the Job, or that of the spec.
  unfoldable pub built_hash : Job → App → String
  unfolding build_spec_from BuildSpec.hash
  built_hash job app =
      let stamped = text_at spec_hash_annotation job.annotations in
      if not (str_eq stamped "") then stamped else BuildSpec.hash digest (build_spec_from app.spec)

  unfoldable pub succeeded : ℕ → Job → App → App
  unfolding built_hash BuildSpec.is_stale build_spec_from
  succeeded now job app = record app {
    status = record app.status {
      build = record app.status.build { result = BuildResult.succeeded };
      last_successful_build_time = some now;
      last_built_spec_hash = built_hash job app;
      spec_stale = BuildSpec.is_stale digest (build_spec_from app.spec) (built_hash job app);
    };
  }

-- The conditions of a build that succeeded, and of one that failed.
unfoldable pub succeeded_conditions : ℕ → App → App
unfolding set_condition
succeeded_conditions now app =
    let built =
      set_condition now app condition_build_succeeded is_true reason_ready "build succeeded" in
    set_condition now built condition_degraded is_false reason_ready "build succeeded"

unfoldable pub failed_conditions : ℕ → String → String → App → App
unfolding set_condition
failed_conditions now reason message app =
    let built = set_condition now app condition_build_succeeded is_false reason message in
    set_condition now built condition_degraded is_true reason message

unfoldable pub failed : Job → JobCondition → App → App
failed job cond app = with_build app (record app.status.build {
  result = BuildResult.failed;
  message = cond.message;
  logs_ref = job.name;
})

-- The final timeline; a success whose pod is gone means that each step succeeded.
unfoldable pub final_steps : Option Pod → App → BuildStatus
unfolding applicable_steps derive_build_steps all_succeeded
final_steps none app =
    let done = is_success app.status.build.result in
    record app.status.build {
      steps =
          if done
          then all_succeeded (applicable_steps app.spec)
          else derive_build_steps (applicable_steps app.spec) none done;
    }
final_steps (some pod) app = record app.status.build {
  pod_name = pod.name;
  steps =
      derive_build_steps (applicable_steps app.spec) (some pod)
        (is_success app.status.build.result);
}

unfoldable pub with_timeline : Option Pod → App → App
unfolding final_steps failed_step
with_timeline pod app =
    let b = final_steps pod app in with_build app (record b { failed_step = failed_step b.steps })

-- How the failed step's container ended, if it did.
unfoldable pub termination : Option Pod → App → Option BuildTermination
unfolding detect_termination
termination pod app = detect_termination pod app.status.build.failed_step

unfoldable pub stamped_with : Option BuildTermination → App → App
unfolding termination_step_message stamp_step_message
stamped_with none app = app
stamped_with (some t) app =
    let msg = termination_step_message (some t) in
    with_build app (record app.status.build {
      termination = some t;
      steps =
          if not (str_eq msg "")
          then stamp_step_message app.status.build.steps t.container msg
          else app.status.build.steps;
    })

-- The reason and the message of the conditions: those of an OOM kill, or those of the Job.
unfoldable pub failure_reason : Option BuildTermination → String
failure_reason none = reason_build_failed
failure_reason (some t) =
    if str_eq t.reason reason_oom_killed then reason_oom_killed else reason_build_failed

unfoldable pub failure_message : JobCondition → Option BuildTermination → String
unfolding oom_condition_message
failure_message cond none = cond.message
failure_message cond (some t) =
    if str_eq t.reason reason_oom_killed then oom_condition_message t else cond.message

unfoldable pub with_failure : ℕ → JobCondition → Option BuildTermination → App → App
unfolding stamped_with failure_reason failure_message failed_conditions
with_failure now cond t app =
    failed_conditions now (failure_reason t) (failure_message cond t) (stamped_with t app)

-- What is reported of a failure: nothing, unless the platform is at fault.
unfoldable pub fault_report : JobCondition → Option BuildTermination → App → List TerminalFailure
unfolding failure_reason failure_message is_platform_fault
fault_report cond t app =
    if is_platform_fault (failure_reason t) app.status.build.failed_step
    then record {
      app = app.name;
      namespace = app.namespace;
      step = app.status.build.failed_step;
      reason = failure_reason t;
      message = failure_message cond t;
    }
      ∷ []
    else []

-- The record goes into the two histories, and the streak is updated.
unfoldable pub recorded : Defaults → App → App
unfolding effective_history_limits append_build_history append_failed_build_history
    update_consecutive_scheduled_failures
recorded defaults app =
    let (keep_recent, keep_failed) = effective_history_limits defaults app.spec in
    record app {
      status = record app.status {
        build_history = append_build_history app.status.build_history app.status.build keep_recent;
        failed_build_history =
            append_failed_build_history app.status.failed_build_history app.status.build
              keep_failed;
        consecutive_scheduled_failures =
            update_consecutive_scheduled_failures app.status.consecutive_scheduled_failures
              app.status.build.trigger app.status.build.result;
      };
    }
