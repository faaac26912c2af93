-- ===== src/Controller/Lifecycle/Observe.antt =====
-- internal/controller/app_controller.go: the calls of `observeBuild`.
use toggle_web_baker.Common.{
  ℕ, String, Bool, true, false, Option, none, some, List, ◌∷◌, ◌++◌, if◌then◌else◌, str_eq, Result,
  ok, err, is_some,
}
use toggle_web_baker.Common.Int.{ℤ}
use toggle_web_baker.Api.App.{App}
use toggle_web_baker.Cluster.{
  Pod, Job, JobCondition, JobConditionType, job_complete, job_failed, job_other,
}
use toggle_web_baker.Domain.BuildSpec.{BuildSpec}
use toggle_web_baker.Controller.Exec.{
  ApiError, not_found, already_exists, other, Client, Run, ◌>>>◌, query, assign, attempt,
  job_finished,
}
use toggle_web_baker.Controller.Build.{build_labels_for}
use toggle_web_baker.Controller.Inputs.{Defaults}
use toggle_web_baker.Controller.Pods.{latest, first_owned, or_no_pods}
use toggle_web_baker.Controller.Measure.{maybe_start_measurement}
use toggle_web_baker.Controller.Lifecycle.{
  CopierMessage, apply_copier, is_failure, settled, in_flight, completed, succeeded,
  succeeded_conditions, failed, with_timeline, termination, with_failure, fault_report, recorded,
}

-- What the operator is configured with, and the parts that are not its own.
pub record Settings : Type 0 where
  pub digest : BuildSpec → String
  pub unmarshal : String → Option CopierMessage
  pub defaults : Defaults
  pub du_image : String
  pub pull_secret : String
  pub measure_interval : ℤ
  pub build_job : App → String → Job

abbrev pub is_complete_type : JobConditionType → Bool
is_complete_type job_complete = true
is_complete_type job_failed = false
is_complete_type job_other = false

module _ {W : Type 0} (env : Settings) (client : Client W) (now : ℕ) where
  unfoldable pub build_pods : App → W → List Pod
  unfolding build_labels_for
  build_pods app w = or_no_pods (client.list_pods app.namespace (build_labels_for app) w)

  unfoldable pub find_build_pod : Job → Run W (Option Pod)
  unfolding build_labels_for first_owned
  find_build_pod job = query (λ app w. ok (first_owned job (build_pods app w)))

  unfoldable pub apply_copier_termination : Job → Run W (Unit {0})
  unfolding build_labels_for latest apply_copier
  apply_copier_termination job =
      query (λ app w. ok (latest "copier" job (build_pods app w))) >>> λ copier.
      assign (apply_copier env.unmarshal now copier)

  -- The short time to live of a Job that succeeded, unless it has one.
  abbrev pub shorten_ttl : Job → Run W (Unit {0})
  shorten_ttl job s = if is_some job.ttl_seconds_after_finished then (ok tt, s) else (
    ok tt,
    record s {
      world = client.patch_job (record job { ttl_seconds_after_finished = some 600 }) s.world;
    },
  )

  abbrev pub previous_measurement : Run W (Option ℕ)
  previous_measurement = query (λ app w. ok app.status.storage.measured_at)

  -- What follows once the hash is recorded: the copier's message, the measurements, the conditions and
  -- the time to live.
  unfoldable pub after_success : Job → Option ℕ → Run W (Unit {0})
  unfolding apply_copier_termination maybe_start_measurement succeeded_conditions
  after_success job prev =
      apply_copier_termination job
      >>> (λ _. attempt (
          maybe_start_measurement env.build_job client env.du_image env.pull_secret
            env.measure_interval now prev))
      >>> (λ _. assign (succeeded_conditions now))
      >>> λ _. shorten_ttl job

  unfoldable pub on_success : Job → Run W (Unit {0})
  unfolding succeeded after_success
  on_success job =
      assign (succeeded env.digest now job) >>> (λ _. previous_measurement) >>> after_success job

  unfoldable pub on_failure : Job → JobCondition → Run W (Unit {0})
  unfolding failed
  on_failure job cond = assign (failed job cond)

  -- The conditions of a failure, and the report of one that is the platform's.
  unfoldable pub judged : JobCondition → Option Pod → Run W (Unit {0})
  unfolding termination with_failure fault_report
  judged cond pod s =
      let t = termination pod s.app in
      if is_failure s.app.status.build.result
      then (
        ok tt,
        record s {
          app = with_failure now cond t s.app;
          reports = fault_report cond t s.app ++ s.reports;
        },
      )
      else (ok tt, s)

  -- `r.Metrics.RecordTerminalBuild(app)`
  abbrev pub count_build : Run W (Unit {0})
  count_build s = (ok tt, record s { counted = s.app ∷ s.counted })

  unfoldable pub with_pod_found : JobCondition → Option Pod → Run W (Unit {0})
  unfolding with_timeline judged recorded
  with_pod_found cond pod =
      assign (with_timeline pod) >>> (λ _. judged cond pod) >>> (λ _. count_build) >>> λ _.
      assign (recorded env.defaults)

  unfoldable pub finalize : Job → JobCondition → Run W (Unit {0})
  unfolding find_build_pod with_pod_found
  finalize job cond = find_build_pod job >>> with_pod_found cond

  unfoldable pub by_type : Job → JobCondition → Run W (Unit {0})
  unfolding on_success on_failure
  by_type job cond = if is_complete_type cond.type_ then on_success job else on_failure job cond

  unfoldable pub on_finished : Job → JobCondition → Run W (Unit {0})
  unfolding completed by_type finalize
  on_finished job cond =
      assign (completed now) >>> (λ _. by_type job cond) >>> λ _. finalize job cond

  unfoldable pub by_condition : Job → Option JobCondition → Run W (Unit {0})
  unfolding find_build_pod in_flight on_finished
  by_condition job none = find_build_pod job >>> λ pod. assign (in_flight pod)
  by_condition job (some cond) = on_finished job cond

  unfoldable pub observe_job : Job → Run W (Unit {0})
  unfolding settled job_finished by_condition
  observe_job job s = if settled s.app then (ok tt, s) else by_condition job (job_finished job) s

  unfoldable pub with_found : Result ApiError Job → Run W (Unit {0})
  unfolding observe_job
  with_found (ok job) s = observe_job job s
  with_found (err not_found) s = (ok tt, s)
  with_found (err already_exists) s = (err already_exists, s)
  with_found (err (other m)) s = (err (other m), s)

  unfoldable pub observe_build : Run W (Unit {0})
  unfolding with_found
  observe_build s =
      let name = s.app.status.build.job_name in
      if str_eq name ""
      then (ok tt, s)
      else with_found (client.get_job s.app.namespace name s.world) s
