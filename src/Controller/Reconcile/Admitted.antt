-- ===== src/Controller/Reconcile/Admitted.antt =====
-- internal/controller/app_controller.go: a Job is created only for an App that passed the checks.
use toggle_web_baker.Common.{
  Map, text_at, str_eq, str_ne, ◌≢◌, ℕ, ◌<◌, ◌≡◌, refl, length, Bool, true, false, ◌||◌, ◌==◌, some,
  is_some, Result, ok, err, arith, Bool-cases, inl, inr, ◌>>◌, String,
}
use toggle_web_baker.Api.App.{App}
use toggle_web_baker.Domain.Registry.{
  RegistryError, not_allowed, index_out_of_range, check_images_allowed,
}
use toggle_web_baker.Domain.Registry.Boundary.{AllPermitted, check_images_allowed-AllPermitted}
use toggle_web_baker.Domain.Storage.{StorageError, validate_storage}
use toggle_web_baker.Domain.Storage.Ordering.{IsOrdered, validate_storage-IsOrdered}
use toggle_web_baker.Domain.NodeImage.{lookup_node_image}
use toggle_web_baker.Controller.Inputs.{phase_images, storage_config_from}
use toggle_web_baker.Controller.Config.File.{OperatorConfig, ConfigError}
use toggle_web_baker.Controller.Config.Soundness.{then-ok}
use toggle_web_baker.Controller.Exec.{
  ApiError, not_found, already_exists, other, Client, RunState, Run, next,
}
use toggle_web_baker.Controller.Exec.Creates.{CreatesAtMost}
use toggle_web_baker.Controller.Admission.{
  Rejection, panics, image_error, config_error, storage_error, validate_node_version,
  validate_watch_commits, validate_storage_class, check_secret, validate_repo_auth_secret, admit,
}
use toggle_web_baker.Controller.Config.Load.{validate}
use toggle_web_baker.Controller.Reconcile.{
  Parts, Requeue, fail, refuse, or_fail, failed_status, with_storage_class, with_storage,
  with_credential, sync_credential, admitted, from_checks, observed, reconcile, build_up,
}

image_error-ok :
    (r : Result RegistryError (Unit {0}))
    → ◌≡◌ {A = Result Rejection (Unit {0})} (image_error r) (ok tt)
    → r ≡ ok tt
image_error-ok (ok u) h = refl
image_error-ok (err (not_allowed phase image)) h = cc h
image_error-ok (err index_out_of_range) h = cc h

storage_error-ok :
    (r : Result StorageError (Unit {0}))
    → ◌≡◌ {A = Result Rejection (Unit {0})} (storage_error r) (ok tt)
    → r ≡ ok tt
storage_error-ok (ok u) h = refl
storage_error-ok (err e) h = cc h

config_error-ok :
    (r : Result ConfigError (Unit {0}))
    → ◌≡◌ {A = Result Rejection (Unit {0})} (config_error r) (ok tt)
    → r ≡ ok tt
config_error-ok (ok u) h = refl
config_error-ok (err e) h = cc h

validate_storage_class-ok :
    (name : String) (r : Result ApiError Bool) → validate_storage_class name r ≡ ok tt → r ≡ ok true
unfolding validate_storage_class
validate_storage_class-ok name (err e) h = ground (arith)
validate_storage_class-ok name (ok true) h = refl
validate_storage_class-ok name (ok false) h = ground (arith)

-- The node version is unset, or the operator has an image for it.
abbrev pub Resolves : {Q : Type 0} → OperatorConfig Q → ℕ → Type 0
Resolves config n = n == 0 || is_some (lookup_node_image config.node_images n) ≡ true

validate_node_version-Resolves :
    {Q : Type 0} (config : OperatorConfig Q) (app : App)
    → validate_node_version config app.spec ≡ ok tt
    → Resolves config app.spec.pipeline.node_version
unfolding validate_node_version
validate_node_version-Resolves config app h =
    elim (Bool-cases (
      app.spec.pipeline.node_version == 0
      || is_some (lookup_node_image config.node_images app.spec.pipeline.node_version))) [
        | inl y ↦ y
        | inr n ↦ cc (rw n at h)
      ]

-- Where the App names a Secret of its own, it can be read and has a user name and a password.
abbrev pub OverrideUsable : (String → String → Result ApiError (Map String)) → App → Type 0
OverrideUsable get_secret app =
    (name : String)
    → app.spec.repo_auth ≡ some name
    → (entries : Map String) × (get_secret app.namespace name ≡ ok entries)
      × (text_at "username" entries ≢ "")
      × (text_at "password" entries ≢ "")

check_secret-ok :
    (name : String) (r : Result ApiError (Map String))
    → check_secret name r ≡ ok tt
    → (entries : Map String) × (r ≡ ok entries)
      × (text_at "username" entries ≢ "")
      × (text_at "password" entries ≢ "")
check_secret-ok name (err not_found) h = cc h
check_secret-ok name (err already_exists) h = cc h
check_secret-ok name (err (other m)) h = cc h
check_secret-ok name (ok entries) h = elim (Bool-cases (str_eq (text_at "username" entries) "")) [
  | inl y ↦ cc (rw (y, check_secret) at h)
  | inr u ↦ elim (Bool-cases (str_eq (text_at "password" entries) "")) [
    | inl y ↦ cc (rw (u, y, check_secret) at h)
    | inr p ↦ (entries, refl, str_ne _ _ u, str_ne _ _ p)
  ]
]

validate_repo_auth_secret-ok :
    (get_secret : String → String → Result ApiError (Map String)) (app : App)
    → validate_repo_auth_secret get_secret app ≡ ok tt
    → OverrideUsable get_secret app
unfolding validate_repo_auth_secret
validate_repo_auth_secret-ok get_secret app h name e =
    check_secret-ok name (get_secret app.namespace name) (rw e at h)

module _ {W Q C : Type 0} (parts : Parts W Q C) (client : Client W) (now : ℕ) where
  -- The step creates a Job.
  abbrev pub Creates {ℓ} : {A : Type ℓ} → Run W A → RunState W → Type 0
  Creates m s = length s.creates < length (m s).1.creates

  refuse-free :
      (r : Rejection) → CreatesAtMost 0 (refuse parts client now r (fail parts client now r))
  unfolding fail failed_status
  refuse-free r s = elim (Bool-cases (panics r)) [
    | inl y ↦ rw y (omega arith)
    | inr n ↦ rw n (omega arith)
  ]

  or_fail-Creates :
      (check : Result Rejection (Unit {0})) (rest : Run W Requeue) (s : RunState W)
      → Creates (or_fail parts client now check rest) s
      → (check ≡ ok tt) × Creates rest s
  or_fail-Creates (ok u) rest s h = (refl, h)
  or_fail-Creates (err r) rest s h = absurd (omega (arith, refuse-free r s))

  with_storage_class-Creates :
      (cred : C) (s : RunState W)
      → Creates (with_storage_class parts client now cred) s
      → parts.waits_for_consumer parts.storage_class s.world ≡ ok true
  unfolding with_storage_class
  with_storage_class-Creates cred s h =
      let class_of = parts.waits_for_consumer parts.storage_class s.world in
      validate_storage_class-ok parts.storage_class class_of
        (or_fail-Creates (validate_storage_class parts.storage_class class_of)
          (build_up parts client now cred) s h).0

  -- What the checks after the credential find.
  abbrev pub Late : App → W → Type 0
  Late app w =
      OverrideUsable (λ namespace name. parts.get_secret namespace name w) app
      × IsOrdered (storage_config_from app.spec).cache
      × IsOrdered (storage_config_from app.spec).data_cache
      × IsOrdered (storage_config_from app.spec).output
      × (parts.waits_for_consumer parts.storage_class w ≡ ok true)

  with_credential-Creates :
      (cred : C) (s : RunState W)
      → Creates (with_credential parts client now cred) s
      → Late s.app s.world
  unfolding with_credential with_storage
  with_credential-Creates cred s h =
      let get = λ (namespace : String) (name : String). parts.get_secret namespace name s.world in
      let cfg = storage_config_from s.app.spec in
      let (a, k) =
        or_fail-Creates (validate_repo_auth_secret get s.app) (with_storage parts client now cred) s
          h in
      let (b, l) =
        or_fail-Creates (storage_error (validate_storage cfg))
          (with_storage_class parts client now cred) s k in
      let (cache, data_cache, output) =
        (validate_storage-IsOrdered cfg).0 (storage_error-ok (validate_storage cfg) b) in
      (
        validate_repo_auth_secret-ok get s.app a,
        cache,
        data_cache,
        output,
        with_storage_class-Creates cred s l,
      )

  synced-Creates :
      (r : Result ApiError C × W) (s : RunState W)
      → length s.creates
        < length (next (with_credential parts client now) (r.0, record s { world = r.1 })).1.creates
      → Late s.app r.1
  synced-Creates (ok cred, w) s h = with_credential-Creates cred (record s { world = w }) h
  synced-Creates (err e, w) s h = absurd (omega arith)

  admitted-Creates :
      (s : RunState W)
      → Creates (admitted parts client now) s
      → Late s.app (parts.reconcile_git_credential s.app s.world).1
  unfolding admitted sync_credential
  admitted-Creates s h = synced-Creates (parts.reconcile_git_credential s.app s.world) s h

  -- What the checks before the credential find.
  abbrev pub Early : App → Type 0
  Early app =
      (validate parts.is_cidr parts.config ≡ ok tt)
      × AllPermitted parts.config.registry_allowlist (phase_images app.spec)
      × Resolves parts.config app.spec.pipeline.node_version
      × (validate_watch_commits parts.parse_duration app.spec ≡ ok tt)

  admit-Early :
      (app : App)
      → admit parts.config parts.is_cidr parts.parse_duration app.spec ≡ ok tt
      → Early app
  unfolding admit
  admit-Early app h =
      let config = validate parts.is_cidr parts.config in
      let images = check_images_allowed parts.config.registry_allowlist (phase_images app.spec) in
      let node = validate_node_version parts.config app.spec in
      let watch = validate_watch_commits parts.parse_duration app.spec in
      let (a, k) = then-ok (config_error config) (image_error images >> (node >> watch)) h in
      let (b, l) = then-ok (image_error images) (node >> watch) k in
      let (c, d) = then-ok node watch l in
      (
        config_error-ok config a,
        (check_images_allowed-AllPermitted parts.config.registry_allowlist
              (phase_images app.spec)).0
            (image_error-ok images b),
        validate_node_version-Resolves parts.config app c,
        d,
      )

  -- A pass of `Reconcile` that creates a Job, of whatever kind, has an App that passed every check:
  -- the operator's configuration is valid, each image of a phase is permitted by the allowlist, the
  -- node version resolves, a watched ref can be watched, a Secret that the App names for its credential
  -- can be read and has a user name and a password, the thresholds of each volume are ordered, and the
  -- storage class waits for the first consumer. The checks from the Secret on are made on the cluster that the
  -- credential's synchronisation leaves.
  pub reconcile-Admitted :
      (s : RunState W)
      → length s.creates < length (reconcile parts client now s).1.creates
      → Early (observed parts client now s.app)
        × Late
            (observed parts client now s.app)
            (parts.reconcile_git_credential (observed parts client now s.app) s.world).1
  unfolding reconcile from_checks
  reconcile-Admitted s h =
      let t = record s { app = observed parts client now s.app } in
      let (a, k) =
        or_fail-Creates (admit parts.config parts.is_cidr parts.parse_duration s.app.spec)
          (admitted parts client now) t h in
      (admit-Early (observed parts client now s.app) a, admitted-Creates t k)
