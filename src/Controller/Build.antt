-- ===== src/Controller/Build.antt =====
-- internal/controller/app_controller.go: whether a build is active, and the start of a new one. The
-- Job itself comes from `BuildJob` of buildpod.go, an argument here, with the App and the token.
pub mod Unfinished
pub mod Single
use toggle_web_baker.Common.{
  ℕ, suc, ◌+◌, String, Bool, true, false, not, Option, none, some, List, [], ◌∷◌, if◌then◌else◌,
  str_eq, first, is_some, Map, insert, text_at, Result, ok, err,
}
use toggle_web_baker.Api.Status.{BuildPhase, BuildResult, BuildTrigger, BuildStatus}
use toggle_web_baker.Api.App.{
  App, rebuild_annotation, rebuild_by_annotation, rebuild_commit_annotation,
}
use toggle_web_baker.Cluster.{Container, PodSpec, Job}
use toggle_web_baker.Domain.Trigger.{
  BuildDecision, no_build, start_build, defer_build, decide_build,
}
use toggle_web_baker.Controller.Steps.{applicable_steps, derive_build_steps, classify_trigger}
use toggle_web_baker.Controller.Exec.{
  Client, RunState, Run, ◌>>>◌, next, pure, query, assign, create_job, job_finished,
}
use toggle_web_baker.Controller.Cleanup.Job.{labels_for}

unfoldable pub build_labels_for : App → Map String
unfolding labels_for
build_labels_for app = insert "baker.toggle-corp.com/role" "build" (labels_for app)

-- The images of the init containers, then of the main ones, by the names of the containers.
abbrev pub add_images : List Container → Map String → Map String
add_images [] images = images
add_images (c ∷ cs) images = add_images cs (insert c.name c.image images)

unfoldable pub container_images : PodSpec → Map String
container_images pod = add_images pod.containers (add_images pod.init_containers [])

abbrev pub is_manual : BuildTrigger → Bool
is_manual BuildTrigger.manual = true
is_manual BuildTrigger.unset = false
is_manual BuildTrigger.scheduled = false
is_manual BuildTrigger.spec_change = false
is_manual BuildTrigger.commit = false

abbrev pub is_commit : BuildTrigger → Bool
is_commit BuildTrigger.commit = true
is_commit BuildTrigger.unset = false
is_commit BuildTrigger.scheduled = false
is_commit BuildTrigger.manual = false
is_commit BuildTrigger.spec_change = false

unfoldable pub new_build : ℕ → Job → App → BuildStatus
unfolding applicable_steps derive_build_steps classify_trigger container_images
new_build now job app =
    let trigger = classify_trigger app in
    record {
      phase = BuildPhase.pending;
      result = BuildResult.unset;
      job_name = job.name;
      pod_name = "";
      start_time = some now;
      completion_time = none;
      attempts = app.status.build.attempts + 1;
      trigger = trigger;
      triggered_by = text_at rebuild_by_annotation app.annotations;
      commit = if is_commit trigger then text_at rebuild_commit_annotation app.annotations else "";
      steps = derive_build_steps (applicable_steps app.spec) none false;
      resolved_images = container_images job.template;
      failed_step = "";
      message = "";
      logs_ref = "";
      termination = none;
    }

-- What `startBuild` writes into the status once the Job is created.
unfoldable pub build_started : ℕ → String → Job → App → App
unfolding new_build
build_started now token job app = record app {
  status = record app.status {
    last_processed_rebuild = token;
    build = new_build now job app;
    last_manual_trigger =
        if is_manual (classify_trigger app)
        then record {
          triggered_by = text_at rebuild_by_annotation app.annotations;
          time = some now;
        }
        else app.status.last_manual_trigger;
    last_build_time = some now;
  };
}

-- The first Job that is neither complete nor failed, if any.
abbrev pub active_of : List Job → Option Job
active_of jobs = first (λ j. not (is_some (job_finished j))) jobs

module _ {W : Type 0} (build_job : App → String → Job) (client : Client W) (now : ℕ) where
  abbrev pub list_build_jobs : Run W (List Job)
  list_build_jobs = query (λ app w. client.list_jobs app.namespace (build_labels_for app) w)

  unfoldable pub build_active : Run W Bool
  build_active = list_build_jobs >>> λ jobs. pure (is_some (active_of jobs))

  abbrev pub create_and_record : String → Job → Run W (Unit {0})
  create_and_record token job = create_job client job >>> λ _. assign (build_started now token job)

  abbrev pub owned_build_job : String → Run W Job
  owned_build_job token = query (λ app w. client.set_owner app (build_job app token))

  unfoldable pub run_start_build : String → Run W (Unit {0})
  unfolding build_started
  run_start_build token = owned_build_job token >>> create_and_record token

  -- Step 8 of `Reconcile`; the value is `active` afterwards.
  abbrev pub decided_build : String → Bool → BuildDecision → Run W Bool
  decided_build token active start_build = run_start_build token >>> λ _. pure true
  decided_build token active defer_build = pure active
  decided_build token active no_build = pure active

  unfoldable pub build_step : Run W Bool
  unfolding build_active run_start_build
  build_step =
      query (λ app w.
        ok (text_at rebuild_annotation app.annotations, app.status.last_processed_rebuild))
      >>> λ (token, last).
          build_active >>> λ active. decided_build token active (decide_build token last active)
