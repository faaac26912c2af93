-- ===== src/Controller/Lifecycle/Outcome.antt =====
-- internal/controller/app_controller.go: how `observeBuild` ends a build whose Job has finished.
use toggle_web_baker.Common.{
  ℕ, String, true, false, ◌≡◌, refl, ap, ◌∙◌, sym, subst, Option, none, some, if◌then◌else◌, inl,
  inr, Bool-cases, ok, err, is_some, Result, str_eq,
}
use toggle_web_baker.Api.Status.{BuildPhase, BuildResult, BuildTermination}
use toggle_web_baker.Api.App.{App}
use toggle_web_baker.Cluster.{Job, JobCondition, Pod, Terminated}
use toggle_web_baker.Controller.Exec.{ApiError, Client, Run, RunState, next, job_finished}
use toggle_web_baker.Controller.Exec.Keeps.{Keeps, next-Keeps}
use toggle_web_baker.Controller.Conditions.{set_condition}
use toggle_web_baker.Controller.Lifecycle.{
  with_timeline, final_steps, termination, with_failure, stamped_with, recorded, apply_copier,
  apply_parsed, succeeded_conditions, failed_conditions, is_failure, succeeded, failed, completed,
  settled, parse_copier_message, apply_message, CopierMessage,
}
use toggle_web_baker.Controller.Lifecycle.Observe.{
  Settings, is_complete_type, after_success, on_success, judged, with_pod_found, find_build_pod,
  finalize, by_type, apply_copier_termination, by_condition, on_finished, on_failure, observe_job,
  with_found, observe_build,
}
use toggle_web_baker.Controller.Lifecycle.Writings.{with_pod_found-Keeps, after_success-Keeps}

-- The build is complete with this result.
abbrev pub EndedWith : BuildResult → App → Type 0
EndedWith r app = (app.status.build.phase ≡ BuildPhase.complete) × (app.status.build.result ≡ r)

module _ (r : BuildResult) where
  timeline-EndedWith :
      (pod : Option Pod) (app : App) → EndedWith r app → EndedWith r (with_timeline pod app)
  unfolding with_timeline final_steps
  timeline-EndedWith none app h = h
  timeline-EndedWith (some pod) app h = h

  stamped_with-EndedWith :
      (t : Option BuildTermination) (app : App) → EndedWith r app → EndedWith r (stamped_with t app)
  unfolding stamped_with
  stamped_with-EndedWith none app h = h
  stamped_with-EndedWith (some t) app h = h

  failure-EndedWith :
      (now : ℕ) (cond : JobCondition) (pod : Option Pod) (app : App)
      → is_failure app.status.build.result ≡ true
      → EndedWith r app
      → EndedWith r (with_failure now cond (termination pod app) app)
  unfolding with_failure failed_conditions set_condition
  failure-EndedWith now cond pod app y h = stamped_with-EndedWith (termination pod app) app h

  apply_parsed-EndedWith :
      (now : ℕ) (m : Option CopierMessage) (app : App)
      → EndedWith r app
      → EndedWith r (apply_parsed now m app)
  unfolding apply_parsed apply_message
  apply_parsed-EndedWith now none app h = h
  apply_parsed-EndedWith now (some m) app h = h

  copier-EndedWith :
      (unmarshal : String → Option CopierMessage) (now : ℕ) (copier : Option (Pod × Terminated))
      (app : App)
      → EndedWith r app
      → EndedWith r (apply_copier unmarshal now copier app)
  unfolding apply_copier
  copier-EndedWith unmarshal now none app h = h
  copier-EndedWith unmarshal now (some (pod, t)) app h =
      apply_parsed-EndedWith now (parse_copier_message unmarshal t.message)
        (record app { status = record app.status { node_name = pod.spec.node_name } }) h

  module _ {W : Type 0} (env : Settings) (client : Client W) (now : ℕ) where
    abbrev Ended : RunState W → Type 0
    Ended s = EndedWith r s.app

    with_pod_found-Ended :
        (cond : JobCondition) (pod : Option Pod)
        → Keeps Ended (with_pod_found env client now cond pod)
    unfolding recorded
    with_pod_found-Ended cond pod =
        with_pod_found-Keeps env client now (EndedWith r) cond pod (timeline-EndedWith pod)
          (failure-EndedWith now cond pod) (λ app h. h)

    finalize-Ended :
        (job : Job) (cond : JobCondition) → Keeps Ended (finalize env client now job cond)
    unfolding finalize find_build_pod
    finalize-Ended job cond s h = with_pod_found-Ended cond _ s h

    pub after_success-Ended :
        (job : Job) (prev : Option ℕ) → Keeps Ended (after_success env client now job prev)
    unfolding succeeded_conditions set_condition
    after_success-Ended job prev =
        after_success-Keeps env client now (EndedWith r) job prev
          (copier-EndedWith env.unmarshal now) (λ app h. h)

-- The result by the condition of the Job.
abbrev pub result_of : JobCondition → BuildResult
result_of cond = if is_complete_type cond.type_ then BuildResult.succeeded else BuildResult.failed

module _ {W : Type 0} (env : Settings) (client : Client W) (now : ℕ) where
  by_type-Ended :
      (job : Job) (cond : JobCondition) (s : RunState W)
      → s.app.status.build.phase ≡ BuildPhase.complete
      → EndedWith (result_of cond) (by_type env client now job cond s).1.app
  unfolding by_type on_success on_failure succeeded failed
  by_type-Ended job cond s h = elim (Bool-cases (is_complete_type cond.type_)) [
    | inl y ↦ rw y (after_success-Ended BuildResult.succeeded env client now job _ _ (h, refl))
    | inr n ↦ rw n (h, refl)
  ]

  on_finished-Ended :
      (job : Job) (cond : JobCondition) (s : RunState W)
      → EndedWith (result_of cond) (on_finished env client now job cond s).1.app
  unfolding on_finished completed
  on_finished-Ended job cond s =
      next-Keeps (λ t. EndedWith (result_of cond) t.app) (λ _. finalize env client now job cond)
        (λ _. finalize-Ended (result_of cond) env client now job cond)
        (by_type env client now job cond (record s { app = completed now s.app }))
        (by_type-Ended job cond (record s { app = completed now s.app }) refl)

  -- No step after Get returns an error.
  with_pod_found-ok :
      (cond : JobCondition) (pod : Option Pod) (s : RunState W)
      → (with_pod_found env client now cond pod s).0 ≡ ok tt
  unfolding with_pod_found judged
  with_pod_found-ok cond pod s =
      elim (Bool-cases (is_failure (with_timeline pod s.app).status.build.result)) [
        | inl y ↦ rw y
        | inr n ↦ rw n
      ]

  by_type-ok :
      (job : Job) (cond : JobCondition) (s : RunState W)
      → (by_type env client now job cond s).0 ≡ ok tt
  unfolding by_type on_success on_failure after_success apply_copier_termination
  by_type-ok job cond s = elim (Bool-cases (is_complete_type cond.type_)) [
    | inr n ↦ rw n
    | inl y ↦ elim (Bool-cases (is_some job.ttl_seconds_after_finished)) [
      | inl t ↦ rw (y, t)
      | inr t ↦ rw (y, t)
    ]
  ]

  next-ok :
      (f : Unit {0} → Run W (Unit {0})) (r : Result ApiError (Unit {0}) × RunState W)
      → ((t : RunState W) → (f tt t).0 ≡ ok tt)
      → r.0 ≡ ok tt
      → (next f r).0 ≡ ok tt
  next-ok f (ok tt, t) h returned = h t
  next-ok f (err e, t) h returned = cc

  on_finished-ok :
      (job : Job) (cond : JobCondition) (s : RunState W)
      → (on_finished env client now job cond s).0 ≡ ok tt
  unfolding on_finished finalize find_build_pod
  on_finished-ok job cond s =
      next-ok (λ _. finalize env client now job cond)
        (by_type env client now job cond (record s { app = completed now s.app }))
        (λ t. with_pod_found-ok cond _ t)
        (by_type-ok job cond (record s { app = completed now s.app }))

  by_condition-ok :
      (job : Job) (cond : Option JobCondition) (s : RunState W)
      → (by_condition env client now job cond s).0 ≡ ok tt
  unfolding by_condition find_build_pod
  by_condition-ok job none s = refl
  by_condition-ok job (some cond) s = on_finished-ok job cond s

  pub observe_job-ok : (job : Job) (s : RunState W) → (observe_job env client now job s).0 ≡ ok tt
  unfolding observe_job
  observe_job-ok job s = elim (Bool-cases (settled s.app)) [
    | inl y ↦ rw y
    | inr n ↦ rw n (by_condition-ok job (job_finished job) s)
  ]

  -- A finished Job of a build that was not settled.
  pub observe_job-Ended :
      (job : Job) (cond : JobCondition) (s : RunState W)
      → settled s.app ≡ false
      → job_finished job ≡ some cond
      → EndedWith (result_of cond) (observe_job env client now job s).1.app
  unfolding observe_job by_condition
  observe_job-Ended job cond s open_build finished =
      rw (open_build, finished) (on_finished-Ended job cond s)

  pub observe_build-found :
      (job : Job) (s : RunState W)
      → str_eq s.app.status.build.job_name "" ≡ false
      → client.get_job s.app.namespace s.app.status.build.job_name s.world ≡ ok job
      → observe_build env client now s ≡ observe_job env client now job s
  unfolding observe_build with_found
  observe_build-found job s named found = rw (named, found)

  -- Observing a build whose Job has finished, and that was not observed to its end before, returns no
  -- error whatever the other calls to the API server answer, and ends the build: its phase is Complete,
  -- and its result is Succeeded where the Job is complete and Failed where it is not.
  pub observe_build-Ended :
      (job : Job) (cond : JobCondition) (s : RunState W)
      → str_eq s.app.status.build.job_name "" ≡ false
      → client.get_job s.app.namespace s.app.status.build.job_name s.world ≡ ok job
      → job_finished job ≡ some cond
      → settled s.app ≡ false
      → ((observe_build env client now s).0 ≡ ok tt)
        × EndedWith (result_of cond) (observe_build env client now s).1.app
  observe_build-Ended job cond s named found finished open_build =
      let same = observe_build-found job s named found in
      (
        ap (λ r. r.0) same ∙ observe_job-ok job s,
        subst (λ r. EndedWith (result_of cond) r.1.app) (sym same)
            (observe_job-Ended job cond s open_build finished),
      )
