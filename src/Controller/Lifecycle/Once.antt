-- ===== src/Controller/Lifecycle/Once.antt =====
-- internal/controller/app_controller.go: a build is recorded once, and what `observeBuild` does on errors.
use toggle_web_baker.Common.{
  ℕ, true, false, ◌≡◌, refl, ap, some, inl, inr, Bool-cases, ok, err, Result, str_eq, err-ne-ok,
}
use toggle_web_baker.Api.Status.{BuildResult}
use toggle_web_baker.Api.App.{App}
use toggle_web_baker.Cluster.{Job, JobCondition}
use toggle_web_baker.Controller.Exec.{
  ApiError, not_found, already_exists, other, Client, RunState, job_finished,
}
use toggle_web_baker.Controller.Lifecycle.{settled}
use toggle_web_baker.Controller.Lifecycle.Observe.{
  Settings, is_complete_type, observe_job, with_found, observe_build,
}
use toggle_web_baker.Controller.Lifecycle.Outcome.{
  EndedWith, result_of, observe_build-Ended, observe_job-ok,
}

reason_or : Result ApiError (Unit {0}) → ApiError
reason_or (err e) = e
reason_or (ok u) = not_found

settled-success : (app : App) → EndedWith BuildResult.succeeded app → settled app ≡ true
unfolding settled
settled-success app (p, r) = rw (p, r)

settled-failure : (app : App) → EndedWith BuildResult.failed app → settled app ≡ true
unfolding settled
settled-failure app (p, r) = rw (p, r)

settled-result :
    (cond : JobCondition) (app : App) → EndedWith (result_of cond) app → settled app ≡ true
settled-result cond app h = elim (Bool-cases (is_complete_type cond.type_)) [
  | inl y ↦ settled-success app (rw y at h)
  | inr n ↦ settled-failure app (rw n at h)
]

module _ {W : Type 0} (env : Settings) (client : Client W) (now : ℕ) where
  observe_job-settled :
      (job : Job) (s : RunState W) → settled s.app ≡ true → (observe_job env client now job s).1 ≡ s
  unfolding observe_job
  observe_job-settled job s h = rw h

  with_found-settled :
      (r : Result ApiError Job) (s : RunState W)
      → settled s.app ≡ true
      → (with_found env client now r s).1 ≡ s
  unfolding with_found
  with_found-settled (ok job) s h = observe_job-settled job s h
  with_found-settled (err not_found) s h = refl
  with_found-settled (err already_exists) s h = refl
  with_found-settled (err (other m)) s h = refl

  observe_build-settled :
      (s : RunState W) → settled s.app ≡ true → (observe_build env client now s).1 ≡ s
  unfolding observe_build
  observe_build-settled s h = elim (Bool-cases (str_eq s.app.status.build.job_name "")) [
    | inl y ↦ rw y
    | inr n ↦ rw n (
        with_found-settled (client.get_job s.app.namespace s.app.status.build.job_name s.world) s h)
  ]

  with_found-error :
      (r : Result ApiError Job) (s : RunState W) (e : ApiError)
      → (with_found env client now r s).0 ≡ err e
      → (r ≡ err e) × ((with_found env client now r s).1 ≡ s)
  unfolding with_found reason_or
  with_found-error (ok job) s e h =
      absurd (err-ne-ok e tt _ h (observe_job-ok env client now job s))
  with_found-error (err not_found) s e h = absurd (err-ne-ok e tt _ h refl)
  with_found-error (err already_exists) s e h = (ap err (ap reason_or h), refl)
  with_found-error (err (other m)) s e h = (ap err (ap reason_or h), refl)

  -- `observeBuild` returns an error only where the Get of the build's Job failed with it, and then it
  -- has changed nothing.
  pub observe_build-error :
      (s : RunState W) (e : ApiError)
      → (observe_build env client now s).0 ≡ err e
      → (client.get_job s.app.namespace s.app.status.build.job_name s.world ≡ err e)
        × ((observe_build env client now s).1 ≡ s)
  unfolding observe_build
  observe_build-error s e h = elim (Bool-cases (str_eq s.app.status.build.job_name "")) [
    | inl y ↦ absurd (err-ne-ok e tt (ok tt) (rw y at h) refl)
    | inr n ↦ rw n (
        with_found-error (client.get_job s.app.namespace s.app.status.build.job_name s.world) s e
          (rw n at h))
  ]

module _ {W : Type 0} (env : Settings) (client : Client W) (now : ℕ) where
  -- A finished build is recorded once: after the observation that ended it, another one changes nothing,
  -- at any later time and whatever the cluster looks like by then. The App keeps its status with the
  -- histories, the streak and the conditions, no Job is created, no failure is reported, and no build is
  -- counted again.
  pub observe_build-once :
      (later : ℕ) (job : Job) (cond : JobCondition) (s : RunState W) (w : W)
      → str_eq s.app.status.build.job_name "" ≡ false
      → client.get_job s.app.namespace s.app.status.build.job_name s.world ≡ ok job
      → job_finished job ≡ some cond
      → settled s.app ≡ false
      → (observe_build env client later (record (observe_build env client now s).1 { world = w })).1
        ≡ record (observe_build env client now s).1 { world = w }
  observe_build-once later job cond s w named found finished open_build =
      let ended = observe_build-Ended env client now job cond s named found finished open_build in
      observe_build-settled env client later
        (record (observe_build env client now s).1 { world = w })
        (settled-result cond (observe_build env client now s).1.app ended.1)
