-- ===== src/Controller/Lifecycle/LastGood.antt =====
-- internal/controller/app_controller.go: what a failed build leaves as it was, and what a build that
-- succeeded shows.
use toggle_web_baker.Common.{ℕ, true, false, ◌≡◌, refl, sym, subst, Option, none, some, ok, str_eq}
use toggle_web_baker.Api.Status.{BuildTermination}
use toggle_web_baker.Api.App.{App}
use toggle_web_baker.Cluster.{Job, JobCondition, Pod}
use toggle_web_baker.Controller.Exec.{Client, RunState, job_finished}
use toggle_web_baker.Controller.Exec.Keeps.{Keeps, next-Keeps}
use toggle_web_baker.Controller.Conditions.{set_condition}
use toggle_web_baker.Controller.Lifecycle.{
  with_timeline, termination, with_failure, stamped_with, recorded, failed_conditions, is_failure,
  failed, completed, settled,
}
use toggle_web_baker.Controller.Lifecycle.Observe.{
  Settings, is_complete_type, with_pod_found, find_build_pod, finalize, by_type, by_condition,
  on_finished, on_failure, observe_job, observe_build,
}
use toggle_web_baker.Controller.Lifecycle.Writings.{with_pod_found-Keeps}
use toggle_web_baker.Controller.Lifecycle.Outcome.{observe_build-found}

-- What serves the site, and what is known of the last build that succeeded.
abbrev pub SameGood : App → App → Type 0
SameGood before after =
    (after.status.release ≡ before.status.release)
    × (after.status.last_built_spec_hash ≡ before.status.last_built_spec_hash)
    × (after.status.last_successful_build_time ≡ before.status.last_successful_build_time)
    × (after.status.storage ≡ before.status.storage)
    × (after.annotations ≡ before.annotations)
    × (after.spec ≡ before.spec)

module _ (before : App) where
  timeline-SameGood :
      (pod : Option Pod) (app : App) → SameGood before app → SameGood before (with_timeline pod app)
  unfolding with_timeline
  timeline-SameGood pod app h = h

  stamped_with-SameGood :
      (t : Option BuildTermination) (app : App)
      → SameGood before app
      → SameGood before (stamped_with t app)
  unfolding stamped_with
  stamped_with-SameGood none app h = h
  stamped_with-SameGood (some t) app h = h

  failure-SameGood :
      (now : ℕ) (cond : JobCondition) (pod : Option Pod) (app : App)
      → is_failure app.status.build.result ≡ true
      → SameGood before app
      → SameGood before (with_failure now cond (termination pod app) app)
  unfolding with_failure failed_conditions set_condition
  failure-SameGood now cond pod app y h = stamped_with-SameGood (termination pod app) app h

module _ {W : Type 0} (env : Settings) (client : Client W) (now : ℕ) where
  with_pod_found-SameGood :
      (before : App) (cond : JobCondition) (pod : Option Pod)
      → Keeps (λ s. SameGood before s.app) (with_pod_found env client now cond pod)
  unfolding recorded
  with_pod_found-SameGood before cond pod =
      with_pod_found-Keeps env client now (SameGood before) cond pod (timeline-SameGood before pod)
        (failure-SameGood before now cond pod) (λ app k. k)

  finalize-SameGood :
      (before : App) (job : Job) (cond : JobCondition)
      → Keeps (λ s. SameGood before s.app) (finalize env client now job cond)
  unfolding finalize find_build_pod
  finalize-SameGood before job cond s h = with_pod_found-SameGood before cond _ s h

  by_type-SameGood :
      (job : Job) (cond : JobCondition) (s : RunState W)
      → is_complete_type cond.type_ ≡ false
      → SameGood s.app (by_type env client now job cond s).1.app
  unfolding by_type on_failure failed
  by_type-SameGood job cond s h = rw h (refl, refl, refl, refl, refl, refl)

  on_finished-SameGood :
      (job : Job) (cond : JobCondition) (s : RunState W)
      → is_complete_type cond.type_ ≡ false
      → SameGood s.app (on_finished env client now job cond s).1.app
  unfolding on_finished completed
  on_finished-SameGood job cond s h =
      next-Keeps (λ t. SameGood s.app t.app) (λ _. finalize env client now job cond)
        (λ _. finalize-SameGood s.app job cond)
        (by_type env client now job cond (record s { app = completed now s.app }))
        (by_type-SameGood job cond (record s { app = completed now s.app }) h)

  -- A build that failed takes nothing from what is served: the release, the hash and the time of the last
  -- build that succeeded, and the recorded storage stay as they were, and so do the annotations and the spec.
  pub observe_build-SameGood :
      (job : Job) (cond : JobCondition) (s : RunState W)
      → str_eq s.app.status.build.job_name "" ≡ false
      → client.get_job s.app.namespace s.app.status.build.job_name s.world ≡ ok job
      → job_finished job ≡ some cond
      → is_complete_type cond.type_ ≡ false
      → settled s.app ≡ false
      → SameGood s.app (observe_build env client now s).1.app
  unfolding observe_job by_condition
  observe_build-SameGood job cond s named found finished not_complete open_build =
      subst (λ r. SameGood s.app r.1.app)
        (sym (observe_build-found env client now job s named found))
        (rw (open_build, finished) (on_finished-SameGood job cond s not_complete))
