-- ===== src/Controller/Lifecycle/Verdict.antt =====
-- internal/controller/app_controller.go: the conditions of a build that has ended.
use toggle_web_baker.Common.{
  ℕ, String, Bool, true, false, ◌≡◌, refl, ap, ◌∙◌, sym, subst, Option, none, some, inl, inr,
  Bool-cases, not, is_some, ok, str_eq,
}
use toggle_web_baker.Api.Status.{BuildPhase, BuildResult, is_true, is_false}
use toggle_web_baker.Api.App.{App, condition_degraded, condition_build_succeeded, reason_ready}
use toggle_web_baker.Cluster.{Job, JobCondition, Pod}
use toggle_web_baker.Controller.Exec.{Client, RunState, job_finished}
use toggle_web_baker.Controller.Exec.Keeps.{Keeps, next-Keeps}
use toggle_web_baker.Controller.Conditions.{find_condition, holds, set_condition}
use toggle_web_baker.Controller.Conditions.Laws.{holds-set_condition, find-set_condition_other}
use toggle_web_baker.Controller.Lifecycle.{
  succeeded_conditions, with_timeline, final_steps, termination, with_failure, stamped_with,
  recorded, failed_conditions, is_failure, failed, completed, settled, succeeded, failure_reason,
  failure_message,
}
use toggle_web_baker.Controller.Lifecycle.Observe.{
  Settings, is_complete_type, with_pod_found, find_build_pod, finalize, by_type, by_condition,
  on_finished, on_failure, on_success, judged, after_success, apply_copier_termination, observe_job,
  observe_build,
}
use toggle_web_baker.Controller.Measure.{maybe_start_measurement}
use toggle_web_baker.Controller.Lifecycle.Writings.{with_pod_found-Keeps}
use toggle_web_baker.Controller.Lifecycle.Outcome.{
  EndedWith, observe_build-found, after_success-Ended,
}

-- BuildSucceeded holds where `good`, and Degraded where not.
abbrev pub Verdict : Bool → App → Type 0
Verdict good app =
    (holds (find_condition app.status.conditions condition_build_succeeded) ≡ good)
    × (holds (find_condition app.status.conditions condition_degraded) ≡ not good)

succeeded_conditions-Verdict : (now : ℕ) (app : App) → Verdict true (succeeded_conditions now app)
unfolding succeeded_conditions
succeeded_conditions-Verdict now app =
    let built =
      set_condition now app condition_build_succeeded is_true reason_ready "build succeeded" in
    (
      ap holds (
            find-set_condition_other now built condition_degraded condition_build_succeeded
              reason_ready "build succeeded" is_false refl)
          ∙ holds-set_condition now app condition_build_succeeded reason_ready "build succeeded"
              is_true,
      holds-set_condition now built condition_degraded reason_ready "build succeeded" is_false,
    )

failed_conditions-Verdict :
    (now : ℕ) (reason message : String) (app : App)
    → Verdict false (failed_conditions now reason message app)
unfolding failed_conditions
failed_conditions-Verdict now reason message app =
    let built = set_condition now app condition_build_succeeded is_false reason message in
    (
      ap holds (
            find-set_condition_other now built condition_degraded condition_build_succeeded reason
              message is_true refl)
          ∙ holds-set_condition now app condition_build_succeeded reason message is_false,
      holds-set_condition now built condition_degraded reason message is_true,
    )

-- A success keeps its verdict: nothing that follows takes it for a failure.
abbrev Good : App → Type 0
Good app = EndedWith BuildResult.succeeded app × Verdict true app

not_failure :
    (app : App) → EndedWith BuildResult.succeeded app → is_failure app.status.build.result ≡ false
not_failure app h = ap is_failure h.1

timeline-Good : (pod : Option Pod) (app : App) → Good app → Good (with_timeline pod app)
unfolding with_timeline final_steps
timeline-Good none app h = h
timeline-Good (some pod) app h = h

timeline-result :
    (pod : Option Pod) (app : App)
    → is_failure (with_timeline pod app).status.build.result ≡ is_failure app.status.build.result
unfolding with_timeline final_steps
timeline-result none app = refl
timeline-result (some pod) app = refl

failure-Good :
    (now : ℕ) (cond : JobCondition) (pod : Option Pod) (app : App)
    → is_failure app.status.build.result ≡ true
    → Good app
    → Good (with_failure now cond (termination pod app) app)
failure-Good now cond pod app y h = let n = not_failure app h.0 in cc

module _ {W : Type 0} (env : Settings) (client : Client W) (now : ℕ) where
  with_pod_found-Good :
      (cond : JobCondition) (pod : Option Pod)
      → Keeps (λ s. Good s.app) (with_pod_found env client now cond pod)
  unfolding recorded
  with_pod_found-Good cond pod =
      with_pod_found-Keeps env client now Good cond pod (timeline-Good pod)
        (failure-Good now cond pod) (λ app k. k)

  -- The judgement of a failure.
  with_pod_found-failed :
      (cond : JobCondition) (pod : Option Pod) (s : RunState W)
      → is_failure s.app.status.build.result ≡ true
      → Verdict false (with_pod_found env client now cond pod s).1.app
  unfolding with_pod_found judged recorded with_failure
  with_pod_found-failed cond pod s h =
      let a = with_timeline pod s.app in
      let t = termination pod a in
      let failing : is_failure a.status.build.result ≡ true = timeline-result pod s.app ∙ h in
      rw failing (
        failed_conditions-Verdict now (failure_reason t) (failure_message cond t)
          (stamped_with t a))

  after_success-Verdict :
      (job : Job) (prev : Option ℕ) (s : RunState W)
      → Verdict true (after_success env client now job prev s).1.app
  unfolding after_success apply_copier_termination
  after_success-Verdict job prev s =
      let copied = (apply_copier_termination env client now job s).1 in
      let measured =
        (maybe_start_measurement env.build_job client env.du_image env.pull_secret
          env.measure_interval now prev copied).1 in
      elim (Bool-cases (is_some job.ttl_seconds_after_finished)) [
        | inl y ↦ rw y (succeeded_conditions-Verdict now measured.app)
        | inr n ↦ rw n (succeeded_conditions-Verdict now measured.app)
      ]

  finalize-Good :
      (job : Job) (cond : JobCondition) → Keeps (λ s. Good s.app) (finalize env client now job cond)
  unfolding finalize find_build_pod
  finalize-Good job cond s h = with_pod_found-Good cond _ s h

  finalize-failed :
      (job : Job) (cond : JobCondition) (s : RunState W)
      → is_failure s.app.status.build.result ≡ true
      → Verdict false (finalize env client now job cond s).1.app
  unfolding finalize find_build_pod
  finalize-failed job cond s h = with_pod_found-failed cond _ s h

  on_success-Good :
      (job : Job) (s : RunState W)
      → s.app.status.build.phase ≡ BuildPhase.complete
      → Good (on_success env client now job s).1.app
  unfolding on_success succeeded
  on_success-Good job s h = (
    after_success-Ended BuildResult.succeeded env client now job _ _ (h, refl),
    after_success-Verdict job _ _,
  )

  on_finished-Verdict :
      (job : Job) (cond : JobCondition) (s : RunState W)
      → Verdict (is_complete_type cond.type_) (on_finished env client now job cond s).1.app
  unfolding on_finished completed by_type on_failure failed
  on_finished-Verdict job cond s = elim (Bool-cases (is_complete_type cond.type_)) [
    | inl y ↦
        rw y
          (next-Keeps (λ t. Good t.app) (λ _. finalize env client now job cond)
            (λ _. finalize-Good job cond)
            (on_success env client now job (record s { app = completed now s.app }))
            (on_success-Good job (record s { app = completed now s.app }) refl)).1
    | inr n ↦ rw n (finalize-failed job cond _ refl)
  ]

  -- Once a finished build is observed, the conditions say how its Job ended: BuildSucceeded is true and
  -- Degraded false where the Job is complete, and the other way round where it failed.
  pub observe_build-Verdict :
      (job : Job) (cond : JobCondition) (s : RunState W)
      → str_eq s.app.status.build.job_name "" ≡ false
      → client.get_job s.app.namespace s.app.status.build.job_name s.world ≡ ok job
      → job_finished job ≡ some cond
      → settled s.app ≡ false
      → Verdict (is_complete_type cond.type_) (observe_build env client now s).1.app
  unfolding observe_job by_condition
  observe_build-Verdict job cond s named found finished open_build =
      subst (λ r. Verdict (is_complete_type cond.type_) r.1.app)
        (sym (observe_build-found env client now job s named found))
        (rw (open_build, finished) (on_finished-Verdict job cond s))
