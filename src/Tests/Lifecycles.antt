-- ===== src/Tests/Lifecycles.antt =====
-- Builds observed to their end, and the theorems about it at them.
use toggle_web_baker.Common.{◌≤◌, All, true, ◌≡◌, refl, none, some, List, [], ◌∷◌, ok, err}
use toggle_web_baker.Common.Int.{pos}
use toggle_web_baker.Api.Status.{BuildPhase, BuildResult, StepStatus}
use toggle_web_baker.Api.App.{App}
use toggle_web_baker.Cluster.{
  Job, JobCondition, job_complete, job_failed, Pod, ContainerStatus, Terminated,
}
use toggle_web_baker.Controller.Exec.{ApiError, other, Client, RunState, job_finished, owned_by_job}
use toggle_web_baker.Controller.Pods.{latest, candidates}
use toggle_web_baker.Controller.Pods.Latest.{IsOwn, latest-IsOwn}
use toggle_web_baker.Controller.Lifecycle.{settled, final_steps, in_flight}
use toggle_web_baker.Controller.Lifecycle.Evidence.{Evidenced, final_steps-Evidenced}
use toggle_web_baker.Controller.Steps.Timeline.{Exited}
use toggle_web_baker.Controller.Lifecycle.Observe.{Settings, observe_build, is_complete_type}
use toggle_web_baker.Controller.Lifecycle.Outcome.{EndedWith, result_of, observe_build-Ended}
use toggle_web_baker.Controller.Lifecycle.Once.{observe_build-once, observe_build-error}
use toggle_web_baker.Controller.Lifecycle.LastGood.{SameGood, observe_build-SameGood}
use toggle_web_baker.Controller.Lifecycle.Verdict.{Verdict, observe_build-Verdict}
use toggle_web_baker.Tests.Samples.{
  site, build_of, job_named, pod_spec, cluster, build_job, state_of,
}

abbrev pub settings : Settings
settings = record {
  digest = λ spec. "d1";
  unmarshal = λ message. none;
  defaults = record {
    history_keep_recent = 5;
    history_keep_failed = 5;
    scheduled_alert_threshold = 3;
  };
  du_image = "du:1";
  pull_secret = "";
  measure_interval = pos 0;
  build_job = build_job;
}

abbrev running : App
running = record site {
  status = record site.status {
    build = record (build_of "site-build-1" BuildResult.unset) { phase = BuildPhase.running };
  };
}

abbrev complete : JobCondition
complete = record { type_ = job_complete; is_true = true; message = "" }

abbrev backoff : JobCondition
backoff = record { type_ = job_failed; is_true = true; message = "BackoffLimitExceeded" }

abbrev done : Job
done = record (job_named "site-build-1") { conditions = complete ∷ [] }

abbrev broken : Job
broken = record (job_named "site-build-1") { conditions = backoff ∷ [] }

abbrev before : Job → RunState (List Job)
before job = record (state_of (job ∷ [])) { app = running }

observe_build-Ended_example :
    ((observe_build settings cluster 9 (before done)).0 ≡ ok tt)
    × EndedWith (result_of complete) (observe_build settings cluster 9 (before done)).1.app
unfolding job_finished settled
observe_build-Ended_example =
    observe_build-Ended settings cluster 9 done complete (before done) refl refl refl refl

observe_build-once_example :
    (observe_build settings cluster 20
      (record (observe_build settings cluster 9 (before broken)).1 { world = [] })).1
    ≡ record (observe_build settings cluster 9 (before broken)).1 { world = [] }
unfolding job_finished settled
observe_build-once_example =
    observe_build-once settings cluster 9 20 broken backoff (before broken) [] refl refl refl refl

observe_build-SameGood_example :
    SameGood running (observe_build settings cluster 9 (before broken)).1.app
unfolding job_finished settled
observe_build-SameGood_example =
    observe_build-SameGood settings cluster 9 broken backoff (before broken) refl refl refl refl
      refl

observe_build-Verdict_example :
    Verdict
      (is_complete_type backoff.type_)
      (observe_build settings cluster 9 (before broken)).1.app
unfolding job_finished settled
observe_build-Verdict_example =
    observe_build-Verdict settings cluster 9 broken backoff (before broken) refl refl refl refl

-- A client whose Get fails.
abbrev refused : ApiError
refused = other "connection refused"

abbrev failing : Client (List Job)
failing = record cluster { get_job = λ namespace name jobs. err refused }

observe_build-error_example :
    (failing.get_job "web" "site-build-1" (done ∷ []) ≡ err refused)
    × ((observe_build settings failing 9 (before done)).1 ≡ before done)
unfolding observe_build
observe_build-error_example = observe_build-error settings failing 9 (before done) refused refl

abbrev copier_status : ContainerStatus
copier_status = record {
  name = "copier";
  running = none;
  terminated = some (record {
    reason = "Completed";
    exit_code = pos 0;
    message = "{}";
    started_at = 1;
    finished_at = 5;
  });
}

abbrev copier_pod : Pod
copier_pod = record {
  name = "site-build-1-x";
  owner_references = record { uid = "site-build-1"; controller = some true } ∷ [];
  spec = pod_spec;
  init_container_statuses = [];
  container_statuses = copier_status ∷ [];
}

abbrev copier_end : Terminated
copier_end = record {
  reason = "Completed";
  exit_code = pos 0;
  message = "{}";
  started_at = 1;
  finished_at = 5;
}

latest-IsOwn_example :
    IsOwn "copier" done (copier_pod ∷ []) (copier_pod, copier_end)
    × ((d : Pod × Terminated)
        → IsOwn "copier" done (copier_pod ∷ []) d
        → d.1.finished_at ≤ copier_end.finished_at)
unfolding latest candidates owned_by_job
latest-IsOwn_example = latest-IsOwn "copier" done (copier_pod ∷ []) (copier_pod, copier_end) refl

final_steps-Evidenced_example :
    All
      (Evidenced (some copier_pod) running.status.build.result)
      (final_steps (some copier_pod) running).steps
    × ((p : Pod)
        → All
            (λ s. s.status ≡ StepStatus.succeeded → Exited p s.name)
            (in_flight (some p) running).status.build.steps)
final_steps-Evidenced_example = final_steps-Evidenced (some copier_pod) running
