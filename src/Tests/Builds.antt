-- ===== src/Tests/Builds.antt =====
-- internal/controller: builds, cleanups and timelines at concrete inputs.
use toggle_web_baker.Common.{
  inl, inr, here, ◌+◌, ◌≤◌, ◌≡◌, refl, ◌⊎◌, ◌↔◌, true, false, some, List, [], ◌∷◌, ◌++◌, length, ok,
}
use toggle_web_baker.Common.Int.{pos}
use toggle_web_baker.Api.Status.{StepStatus, BuildStep, BuildTermination}
use toggle_web_baker.Api.App.{
  step_copier, reason_config_error, reason_oom_killed, reason_build_failed,
}
use toggle_web_baker.Cluster.{Job}
use toggle_web_baker.Controller.Exec.{RunState, job_finished}
use toggle_web_baker.Controller.Build.{build_step, build_started, run_start_build}
use toggle_web_baker.Controller.Build.Single.{build_step-active, start_build-once}
use toggle_web_baker.Controller.Build.Unfinished.{SomeUnfinished}
use toggle_web_baker.Controller.Cleanup.Start.{reconcile_cleanup}
use toggle_web_baker.Controller.Cleanup.Serial.{reconcile_cleanup-once, reconcile_cleanup-build}
use toggle_web_baker.Controller.Cleanup.Held.{reconcile_cleanup-held}
use toggle_web_baker.Controller.Cleanup.Actions.{cleanup_actions_for}
use toggle_web_baker.Controller.Cleanup.Observe.{
  observe_job, observe_jobs, observe_cleanup, cleanup_succeeded,
}
use toggle_web_baker.Controller.Cleanup.Harvest.{observe_job-again}
use toggle_web_baker.Controller.Cleanup.Job.{cleanup_security_context}
use toggle_web_baker.Controller.Cleanup.Job.Privileges.{IsLeast, cleanup_security_context-IsLeast}
use toggle_web_baker.Controller.Steps.{failed_step}
use toggle_web_baker.Controller.Steps.Timeline.{IsFailing, NoneFailing, failed_step_first}
use toggle_web_baker.Controller.Faults.{is_platform_fault}
use toggle_web_baker.Controller.Faults.Blame.{IsUserStep, is_platform_fault_iff}
use toggle_web_baker.Tests.Samples.{
  site, app_spec, cluster, settings, state_of, job_named, done_cleanup, build_job, step_of,
}

unfinished : SomeUnfinished (job_named "site-build-1" ∷ [])
unfinished = (job_named "site-build-1", here, λ c i t. elim i [ ])

build_step-active_example :
    build_step build_job cluster 9 (state_of (job_named "site-build-1" ∷ []))
    ≡ (ok true, state_of (job_named "site-build-1" ∷ []))
build_step-active_example =
    build_step-active build_job cluster 9 (state_of (job_named "site-build-1" ∷ []))
      (job_named "site-build-1" ∷ []) refl unfinished

-- The state after the build of token 2 was started.
abbrev after_start : RunState (List Job)
after_start = record {
  app = build_started 9 "2" (job_named "site-build-2") site;
  world = job_named "site-build-2" ∷ [];
  creates = job_named "site-build-2" ∷ [];
  reports = [];
  counted = [];
}

start_build-once_example :
    length (build_step build_job cluster 11 (record after_start { world = [] })).1.creates
    ≤ length after_start.creates
unfolding run_start_build
start_build-once_example = start_build-once build_job cluster 9 11 (state_of []) after_start [] refl

reconcile_cleanup-once_example :
    length (reconcile_cleanup settings cluster 9 false (state_of (done_cleanup ∷ []))).1.creates
    ≤ 1 + 0
reconcile_cleanup-once_example =
    reconcile_cleanup-once settings cluster 9 false (state_of (done_cleanup ∷ []))

reconcile_cleanup-build_example :
    length (reconcile_cleanup settings cluster 9 true (state_of [])).1.creates ≤ 0
reconcile_cleanup-build_example = reconcile_cleanup-build settings cluster 9 (state_of [])

-- A cleanup of the cache is requested, and one has completed.
abbrev before_pass : RunState (List Job)
before_pass = record (state_of (done_cleanup ∷ [])) {
  app = record site {
    annotations = ("cleanup-cache.baker.toggle-corp.com/requested-at", "t1") ∷ [];
  };
}

reconcile_cleanup-held_example :
    length (reconcile_cleanup settings cluster 9 false before_pass).1.creates ≤ 0
unfolding observe_cleanup observe_jobs job_finished observe_job cleanup_actions_for
    cleanup_succeeded
reconcile_cleanup-held_example =
    reconcile_cleanup-held settings cluster 9 false before_pass
      (observe_cleanup settings cluster 9 before_pass).1 (done_cleanup ∷ []) refl
      (inr (done_cleanup, here, refl), (inl refl, tt))

observe_job-again_example :
    observe_job settings cluster 12 done_cleanup
      (done_cleanup ∷ [])
      (observe_job settings cluster 9 done_cleanup [] site).1
    ≡ observe_job settings cluster 9 done_cleanup [] site
observe_job-again_example =
    observe_job-again settings cluster 9 12 done_cleanup [] (done_cleanup ∷ []) site

cleanup_security_context-IsLeast_example :
    IsLeast app_spec "cache" (cleanup_security_context app_spec "cache")
cleanup_security_context-IsLeast_example = cleanup_security_context-IsLeast app_spec "cache"

-- A pod whose clone container has exited with 0.
abbrev two_steps : List BuildStep
two_steps = step_of "clone" StepStatus.succeeded ∷ step_of "build" StepStatus.failed ∷ []

failed_step_first_example :
    (NoneFailing two_steps × (failed_step two_steps ≡ ""))
    ⊎ ((before : List BuildStep) × (s : BuildStep) × (rest : List BuildStep) × (two_steps
          ≡ before ++ s ∷ rest)
        × NoneFailing before
        × IsFailing s
        × (failed_step two_steps ≡ s.name))
failed_step_first_example = failed_step_first two_steps

is_platform_fault_iff_example : (is_platform_fault reason_oom_killed step_copier ≡ true) ↔ (
    (reason_oom_killed ≡ reason_config_error)
    ⊎ ((reason_oom_killed ≡ reason_oom_killed) × (step_copier ≡ step_copier))
    ⊎ ((reason_oom_killed ≡ reason_build_failed) × ¬ IsUserStep step_copier))
is_platform_fault_iff_example = is_platform_fault_iff reason_oom_killed step_copier

abbrev clone_termination : BuildTermination
clone_termination = record {
  reason = "Completed";
  container = "clone";
  exit_code = pos 0;
  memory_limit = "";
  finished_at = some 2;
}
