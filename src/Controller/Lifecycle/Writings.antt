-- ===== src/Controller/Lifecycle/Writings.antt =====
-- internal/controller/app_controller.go: what the steps of `observeBuild` leave in the App.
use toggle_web_baker.Common.{
  ℕ, String, Bool, true, false, ◌≡◌, Option, List, [], ◌∷◌, inl, inr, Bool-cases, ok, is_some,
}
use toggle_web_baker.Common.Int.{ℤ}
use toggle_web_baker.Api.App.{App}
use toggle_web_baker.Cluster.{Job, JobCondition, Pod, Terminated}
use toggle_web_baker.Controller.Exec.{
  Client, Run, RunState, ◌>>>◌, pure, query, assign, attempt, create_job,
}
use toggle_web_baker.Controller.Exec.Keeps.{Keeps, >>>-Keeps}
use toggle_web_baker.Controller.Build.{build_active, list_build_jobs, active_of}
use toggle_web_baker.Controller.Lifecycle.{
  with_timeline, termination, with_failure, recorded, apply_copier, succeeded_conditions,
  is_failure,
}
use toggle_web_baker.Controller.Lifecycle.Observe.{
  Settings, apply_copier_termination, shorten_ttl, after_success, judged, count_build,
  with_pod_found,
}
use toggle_web_baker.Controller.Measure.{
  Target, create_measure_jobs, unless_active, maybe_start_measurement, too_soon, measure_job,
  measure_targets,
}

-- Starting the measurements does not touch the App, nor what was reported and counted.
module _ {W : Type 0} (build_job : App → String → Job) (client : Client W)
    (image pull_secret : String) (interval : ℤ) (now : ℕ) (P : App → Type 0) where
  abbrev OfApp : RunState W → Type 0
  OfApp s = P s.app

  create_measure_jobs-Keeps :
      (targets : List Target)
      → Keeps OfApp (create_measure_jobs build_job client image pull_secret interval now targets)
  unfolding create_measure_jobs
  create_measure_jobs-Keeps [] = λ s p. p
  create_measure_jobs-Keeps (m ∷ targets) =
      let owned : Run W Job =
        query (λ app w. client.set_owner app (measure_job image pull_secret app m)) in
      >>>-Keeps OfApp (owned >>> λ job. create_job client job)
        (λ u. create_measure_jobs build_job client image pull_secret interval now targets)
        (>>>-Keeps OfApp owned (λ job. create_job client job) (λ s p. p) (λ job s p. p))
        (λ u. create_measure_jobs-Keeps targets)

  unless_active-Keeps :
      (active : Bool)
      → Keeps OfApp (unless_active build_job client image pull_secret interval now active)
  unfolding unless_active
  unless_active-Keeps true = λ s p. p
  unless_active-Keeps false =
      >>>-Keeps OfApp (query (λ app w. ok (measure_targets app)))
        (λ targets. create_measure_jobs build_job client image pull_secret interval now targets)
        (λ s p. p) create_measure_jobs-Keeps

  build_active-Keeps : Keeps OfApp (build_active build_job client now)
  unfolding build_active
  build_active-Keeps =
      >>>-Keeps OfApp (list_build_jobs build_job client now)
        (λ jobs. pure (is_some (active_of jobs))) (λ s p. p) (λ jobs s p. p)

  pub maybe_start_measurement-Keeps :
      (prev : Option ℕ)
      → Keeps OfApp (maybe_start_measurement build_job client image pull_secret interval now prev)
  unfolding maybe_start_measurement
  maybe_start_measurement-Keeps prev s p = elim (Bool-cases (too_soon now interval prev)) [
    | inl y ↦ rw y p
    | inr n ↦ rw n (
        >>>-Keeps OfApp (build_active build_job client now)
          (unless_active build_job client image pull_secret interval now) build_active-Keeps
          unless_active-Keeps s p)
  ]

-- A property of the App that each writing keeps is kept by the steps that make them.
module _ {W : Type 0} (env : Settings) (client : Client W) (now : ℕ) (P : App → Type 0) where
  abbrev Holds : RunState W → Type 0
  Holds s = P s.app

  judged-Keeps :
      (cond : JobCondition) (pod : Option Pod)
      → ((app : App)
          → is_failure app.status.build.result ≡ true
          → P app
          → P (with_failure now cond (termination pod app) app))
      → Keeps Holds (judged env client now cond pod)
  unfolding judged
  judged-Keeps cond pod h s p = elim (Bool-cases (is_failure s.app.status.build.result)) [
    | inl y ↦ rw y (h s.app y p)
    | inr n ↦ rw n p
  ]

  pub with_pod_found-Keeps :
      (cond : JobCondition) (pod : Option Pod)
      → ((app : App) → P app → P (with_timeline pod app))
      → ((app : App)
          → is_failure app.status.build.result ≡ true
          → P app
          → P (with_failure now cond (termination pod app) app))
      → ((app : App) → P app → P (recorded env.defaults app))
      → Keeps Holds (with_pod_found env client now cond pod)
  unfolding with_pod_found
  with_pod_found-Keeps cond pod timeline failure record_it =
      let first_two : Run W (Unit {0}) =
        assign (with_timeline pod) >>> λ _. judged env client now cond pod in
      let three : Run W (Unit {0}) = first_two >>> λ _. count_build env client now in
      >>>-Keeps Holds three (λ _. assign (recorded env.defaults))
        (>>>-Keeps Holds first_two (λ _. count_build env client now)
          (>>>-Keeps Holds (assign (with_timeline pod)) (λ _. judged env client now cond pod)
            (λ s p. timeline s.app p) (λ _. judged-Keeps cond pod failure))
          (λ _ s p. p))
        (λ _ s p. record_it s.app p)

  shorten_ttl-Keeps : (job : Job) → Keeps Holds (shorten_ttl env client now job)
  shorten_ttl-Keeps job s p = elim (Bool-cases (is_some job.ttl_seconds_after_finished)) [
    | inl y ↦ rw y p
    | inr n ↦ rw n p
  ]

  pub after_success-Keeps :
      (job : Job) (prev : Option ℕ)
      → ((copier : Option (Pod × Terminated)) (app : App)
          → P app
          → P (apply_copier env.unmarshal now copier app))
      → ((app : App) → P app → P (succeeded_conditions now app))
      → Keeps Holds (after_success env client now job prev)
  unfolding after_success apply_copier_termination
  after_success-Keeps job prev copied conditions =
      let started : Run W (Unit {0}) = attempt (
        maybe_start_measurement env.build_job client env.du_image env.pull_secret
          env.measure_interval now prev) in
      let copier : Run W (Unit {0}) = apply_copier_termination env client now job in
      let two : Run W (Unit {0}) = copier >>> λ _. started in
      let three : Run W (Unit {0}) = two >>> λ _. assign (succeeded_conditions now) in
      >>>-Keeps Holds three (λ _. shorten_ttl env client now job)
        (>>>-Keeps Holds two (λ _. assign (succeeded_conditions now))
          (>>>-Keeps Holds copier (λ _. started) (λ s p. copied _ s.app p)
            (λ _.
              maybe_start_measurement-Keeps env.build_job client env.du_image env.pull_secret
                env.measure_interval now P prev))
          (λ _ s p. conditions s.app p))
        (λ _. shorten_ttl-Keeps job)
