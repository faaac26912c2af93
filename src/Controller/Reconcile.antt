-- ===== src/Controller/Reconcile.antt =====
-- `Reconcile` of internal/controller/app_controller.go, from its step 1 on, with `fail` and
-- `seedRebuild`: how the parts of the operator follow one another in a pass. What it calls of the
-- children, of the git credential and of the API server beyond the Jobs is in `Parts`.
pub mod Admitted
pub mod Serial
use toggle_web_baker.Common.{
  Map, ℕ, ◌*◌, ◌^◌, String, Bool, true, false, ◌&&◌, Option, none, some, List, [], ◌∷◌, ◌++◌,
  if◌then◌else◌, str_eq, insert, remove, text_at, Result, ok, err,
}
use toggle_web_baker.Common.Int.{ℤ}
use toggle_web_baker.Api.Status.{Phase}
use toggle_web_baker.Api.App.{
  App, rebuild_annotation, rebuild_by_annotation, rebuild_commit_annotation,
}
use toggle_web_baker.Cluster.{Job}
use toggle_web_baker.Domain.BuildSpec.{is_stale}
use toggle_web_baker.Domain.Storage.{validate_storage, evaluate_threshold_state}
use toggle_web_baker.Controller.Exec.{
  ApiError, other, Client, RunState, Run, ◌>>>◌, pure, query, assign,
}
use toggle_web_baker.Controller.Inputs.{storage_config_from, build_spec_from}
use toggle_web_baker.Controller.Conditions.{
  phase_of, has_succeeded_once, refresh_phase, fail_status,
}
use toggle_web_baker.Controller.Faults.{is_platform_fault}
use toggle_web_baker.Controller.Build.{build_step}
use toggle_web_baker.Controller.Measure.{observe_measurement, record_pvc_capacities}
use toggle_web_baker.Controller.Lifecycle.Observe as Observe
use toggle_web_baker.Controller.Lifecycle.Observe.{observe_build}
use toggle_web_baker.Controller.Cleanup.Actions as Actions
use toggle_web_baker.Controller.Cleanup.Start.{reconcile_cleanup}
use toggle_web_baker.Controller.Config.File.{OperatorConfig}
use toggle_web_baker.Controller.Admission.{
  Rejection, panics, validate_repo_auth_secret, reason, admit, storage_error,
  validate_storage_class,
}

-- `C` is what is decided of the git credential. A call that writes the cluster returns the cluster
-- that it leaves, with an error or none; `ensure_serving` writes the App as well, its URL and the
-- condition of its ingress.
pub record Parts (W Q C : Type 0) : Type 0 where
  pub config : OperatorConfig Q
  pub is_cidr : String → Bool
  pub parse_duration : String → Option ℤ
  pub storage_class : String
  pub waits_for_consumer : String → W → Result ApiError Bool
  pub text : Rejection → String
  pub unix_seconds : ℕ → String
  pub reconcile_git_credential : App → W → Result ApiError C × W
  pub get_secret : String → String → W → Result ApiError (Map String)
  pub ensure_infra : App → C → W → Option ApiError × W
  pub ensure_serving : App → W → Option ApiError × (App × W)
  pub update_status : App → W → Option ApiError × W
  pub patch_app : App → W → Option ApiError × W
  pub delete_job : Job → W → W
  pub build_job : C → App → String → Job
  pub observing : Observe.Settings
  pub cleaning : Actions.Settings

-- `ctrl.Result`, with the wait in nanoseconds.
pub data Requeue : Type 0 where
  requeue : Requeue
  requeue_after : ℕ → Requeue

abbrev pub one_minute : ℕ
one_minute = 60 * 10 ^ 9

abbrev pub or_error {ℓ} : {A : Type ℓ} → A → Option ApiError → Result ApiError A
or_error a none = ok a
or_error a (some e) = err e

abbrev pub seeded : String → App → App
seeded token app = record app {
  annotations =
      remove rebuild_commit_annotation
        (remove rebuild_by_annotation (insert rebuild_annotation token app.annotations));
}

abbrev pub is_awaiting : Phase → Bool
is_awaiting Phase.awaiting_first_build = true
is_awaiting Phase.unset = false
is_awaiting Phase.building = false
is_awaiting Phase.ready = false
is_awaiting Phase.degraded = false

module _ {W Q C : Type 0} (parts : Parts W Q C) (client : Client W) (now : ℕ) where
  -- A call of the API server that writes the cluster.
  abbrev pub write {ℓ} : {A : Type ℓ} → A → (App → W → Option ApiError × W) → Run W A
  write a call s = let (e, w) = call s.app s.world in (or_error a e, record s { world = w })

  abbrev pub send : (App → W → Option ApiError × W) → Run W (Unit {0})
  send call = write tt call

  unfoldable pub failed_status : Rejection → Run W (Unit {0})
  unfolding fail_status is_platform_fault reason
  failed_status r s = (
    ok tt,
    record s {
      app = fail_status now s.app (reason r) (parts.text r);
      reports =
          if is_platform_fault (reason r) ""
          then record {
            app = s.app.name;
            namespace = s.app.namespace;
            step = "";
            reason = reason r;
            message = parts.text r;
          }
            ∷ s.reports
          else s.reports;
    },
  )

  unfoldable pub fail : Rejection → Run W Requeue
  unfolding failed_status
  fail r = failed_status r >>> λ _. write (requeue_after one_minute) parts.update_status

  -- `if err := check; err != nil { return r.fail(…) }`, unless the check panics.
  abbrev pub refuse : Rejection → Run W Requeue → Run W Requeue
  refuse r otherwise s = if panics r then (err (other "index out of range"), s) else otherwise s

  abbrev pub or_fail : Result Rejection (Unit {0}) → Run W Requeue → Run W Requeue
  or_fail (ok u) rest = rest
  or_fail (err r) rest = refuse r (fail r)

  unfoldable pub seed_rebuild : Run W (Unit {0})
  seed_rebuild = assign (seeded (parts.unix_seconds now)) >>> λ _. send parts.patch_app

  -- Steps 9 to 9b2, with the value of `active` after step 8.
  unfoldable pub after_build : C → Bool → Run W (Bool × List Job)
  unfolding observe_build observe_measurement record_pvc_capacities
  after_build cred active =
      observe_build (record parts.observing { build_job = parts.build_job cred }) client now
      >>> (λ _.
          observe_measurement (parts.build_job cred) client parts.observing.du_image
            parts.observing.pull_secret parts.observing.measure_interval now)
      >>> λ measured.
          record_pvc_capacities (parts.build_job cred) client parts.observing.du_image
            parts.observing.pull_secret parts.observing.measure_interval now
          >>> λ _. pure (active, measured)

  -- Steps 8 to 9b2: whether a build is active after them, and the Jobs that were harvested.
  unfoldable pub before_cleanup : C → Run W (Bool × List Job)
  unfolding build_step after_build
  before_cleanup cred = build_step (parts.build_job cred) client now >>> after_build cred

  abbrev pub with_threshold : App → App
  with_threshold app = record app {
    status = record app.status {
      storage = record app.status.storage {
        threshold_state =
            evaluate_threshold_state app.status.storage.sizes (storage_config_from app.spec);
      };
    };
  }

  abbrev pub delete_all : List Job → W → W
  delete_all [] w = w
  delete_all (j ∷ jobs) w = delete_all jobs (parts.delete_job j w)

  abbrev pub delete_jobs : List Job → Run W (Unit {0})
  delete_jobs jobs s = (ok tt, record s { world = delete_all jobs s.world })

  abbrev pub serve : Run W (Unit {0})
  serve s =
      let (e, (app, w)) = parts.ensure_serving s.app s.world in
      if has_succeeded_once s.app.status
      then (or_error tt e, record s { app = app; world = w })
      else (ok tt, s)

  -- The threshold and steps 10 to 12.
  unfoldable pub after_cleanup : List Job → Run W Requeue
  unfolding evaluate_threshold_state storage_config_from has_succeeded_once refresh_phase
  after_cleanup harvested =
      assign with_threshold
      >>> (λ _. serve)
      >>> (λ _. assign (refresh_phase now))
      >>> (λ _. send parts.update_status)
      >>> (λ _. delete_jobs harvested)
      >>> λ _. pure (requeue_after (10 * one_minute))

  unfoldable pub clean : Bool × List Job → Run W Requeue
  unfolding reconcile_cleanup after_cleanup
  clean (active, measured) = reconcile_cleanup parts.cleaning client now active >>> λ cleaned.
      after_cleanup (measured ++ cleaned)

  -- Steps 8 to 12.
  unfoldable pub act : C → Run W Requeue
  unfolding before_cleanup clean
  act cred = before_cleanup cred >>> clean

  -- Step 7: the first build is seeded.
  unfoldable pub bootstrap : C → Run W Requeue
  unfolding phase_of seed_rebuild act
  bootstrap cred s =
      if is_awaiting (phase_of s.app.status)
        && str_eq (text_at rebuild_annotation s.app.annotations) ""
      then (seed_rebuild >>> λ _. pure requeue) s
      else act cred s

  abbrev pub with_stale : App → App
  with_stale app = record app {
    status = record app.status {
      spec_stale =
          is_stale parts.observing.digest (build_spec_from app.spec)
            app.status.last_built_spec_hash;
    };
  }

  -- Steps 5 and 6, and on.
  unfoldable pub build_up : C → Run W Requeue
  unfolding is_stale build_spec_from bootstrap
  build_up cred =
      assign with_stale >>> (λ _. send (λ app. parts.ensure_infra app cred)) >>> λ _. bootstrap cred

  -- Step 4, and on.
  unfoldable pub with_storage_class : C → Run W Requeue
  unfolding validate_storage_class fail build_up
  with_storage_class cred s =
      or_fail
        (validate_storage_class parts.storage_class
          (parts.waits_for_consumer parts.storage_class s.world))
        (build_up cred) s

  -- Step 3, and on.
  unfoldable pub with_storage : C → Run W Requeue
  unfolding validate_storage storage_config_from fail with_storage_class
  with_storage cred s =
      or_fail (storage_error (validate_storage (storage_config_from s.app.spec)))
        (with_storage_class cred) s

  -- Step 2e, and on.
  unfoldable pub with_credential : C → Run W Requeue
  unfolding validate_repo_auth_secret fail with_storage
  with_credential cred s =
      or_fail
        (validate_repo_auth_secret (λ namespace name. parts.get_secret namespace name s.world)
          s.app)
        (with_storage cred) s

  -- Step 2d: the credential is synchronised.
  unfoldable pub sync_credential : Run W C
  sync_credential s =
      let (r, w) = parts.reconcile_git_credential s.app s.world in (r, record s { world = w })

  abbrev pub observed : App → App
  observed app = record app { status = record app.status { observed_generation = app.generation } }

  unfoldable pub admitted : Run W Requeue
  unfolding sync_credential with_credential
  admitted = sync_credential >>> with_credential

  unfoldable pub from_checks : Run W Requeue
  unfolding admit fail admitted
  from_checks s =
      or_fail (admit parts.config parts.is_cidr parts.parse_duration s.app.spec) admitted s

  unfoldable pub reconcile : Run W Requeue
  unfolding from_checks
  reconcile = assign observed >>> λ _. from_checks
