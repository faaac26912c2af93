-- ===== src/Controller/Exec.antt =====
-- How internal/controller runs against the API server: the App that a reconcile holds in memory, the
-- cluster, the Jobs for which it called Create, the failures that it reported to Sentry and the Apps
-- that it gave to `RecordTerminalBuild`. The client is controller-runtime's, so its calls are the
-- fields of a parameter. `jobFinished` and `ownedByJob` of app_controller.go stand here too.
pub mod Creates
pub mod Keeps
use toggle_web_baker.Common.{
  ℕ, String, Bool, true, false, ◌&&◌, ◌||◌, Option, none, some, List, [], ◌∷◌, if◌then◌else◌,
  str_eq, first, any, Map, Result, ok, err,
}
use toggle_web_baker.Api.App.{App}
use toggle_web_baker.Common.Int.{ℤ}
use toggle_web_baker.Observability.Reporter.{TerminalFailure}
use toggle_web_baker.Cluster.{
  OwnerReference, Pod, Job, JobCondition, JobConditionType, job_complete, job_failed, job_other,
}

pub data ApiError : Type 0 where
  not_found already_exists : ApiError
  other : String → ApiError

-- The calls that are used: List of Jobs and of Pods in a namespace by labels,
-- `SetControllerReference`, Create, which answers with an error or none, Get of a Job by namespace and
-- name, Patch of a Job, whose error is not looked at, and Get of a claim for the storage capacity that
-- it is bound to, absent where the claim cannot be read or is not bound.
pub record Client (W : Type 0) : Type 0 where
  pub list_jobs : String → Map String → W → Result ApiError (List Job)
  pub list_pods : String → Map String → W → Result ApiError (List Pod)
  pub set_owner : App → Job → Result ApiError Job
  pub create : Job → W → Option ApiError × W
  pub get_job : String → String → W → Result ApiError Job
  pub patch_job : Job → W → W
  pub get_capacity : String → String → W → Option ℤ

pub record RunState (W : Type 0) : Type 0 where
  pub app : App
  pub world : W
  pub creates : List Job
  pub reports : List TerminalFailure
  pub counted : List App

-- A step of a reconcile: it returns a value or an error, and the state it leaves either way.
abbrev pub Run {ℓ} : Type 0 → Type ℓ → Type ℓ
Run W A = RunState W → Result ApiError A × RunState W

abbrev pub ignore_already_exists : Option ApiError → Result ApiError (Unit {0})
ignore_already_exists none = ok tt
ignore_already_exists (some already_exists) = ok tt
ignore_already_exists (some not_found) = err not_found
ignore_already_exists (some (other m)) = err (other m)

module _ {W : Type 0} where
  abbrev pub next {ℓ κ} :
      {A : Type ℓ} {B : Type κ}
      → (A → Run W B)
      → Result ApiError A × RunState W
      → Result ApiError B × RunState W
  next f (ok a, s) = f a s
  next f (err e, s) = (err e, s)

  infixl 5 ◌>>>◌
  abbrev pub ◌>>>◌ {ℓ κ} : {A : Type ℓ} {B : Type κ} → Run W A → (A → Run W B) → Run W B
  (m >>> f) s = next f (m s)

  abbrev pub pure {ℓ} : {A : Type ℓ} → A → Run W A
  pure a s = (ok a, s)

  -- A call that only reads the cluster.
  abbrev pub query {ℓ} : {A : Type ℓ} → (App → W → Result ApiError A) → Run W A
  query f s = (f s.app s.world, s)

  -- An assignment to fields of the App.
  abbrev pub assign : (App → App) → Run W (Unit {0})
  assign f s = (ok tt, record s { app = f s.app })

  -- A call whose error is only logged.
  abbrev pub attempt : Run W (Unit {0}) → Run W (Unit {0})
  attempt m s = (ok tt, (m s).1)

  -- `if err := r.Create(ctx, job); err != nil && !apierrors.IsAlreadyExists(err) { return err }`
  abbrev pub create_job : Client W → Job → Run W (Unit {0})
  create_job client job s =
      let (e, w) = client.create job s.world in
      (ignore_already_exists e, record s { world = w; creates = job ∷ s.creates })

abbrev pub is_terminal : JobConditionType → Bool
is_terminal job_complete = true
is_terminal job_failed = true
is_terminal job_other = false

unfoldable pub job_finished : Job → Option JobCondition
job_finished job = first (λ c. is_terminal c.type_ && c.is_true) job.conditions

abbrev pub is_controller_with : String → OwnerReference → Bool
is_controller_with uid ref = elim ref.controller [ none ↦ false | some c ↦ c && str_eq ref.uid uid ]

unfoldable pub owned_by_job : Pod → Job → Bool
owned_by_job pod job = any (is_controller_with job.uid) pod.owner_references
