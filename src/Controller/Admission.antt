-- ===== src/Controller/Admission.antt =====
-- The checks that `Reconcile` of internal/controller/app_controller.go makes of an App before it acts,
-- with validateWatchCommits of buildsteps.go and validateRepoAuthSecret of gitcred.go. An error is given by its kind and not by its text.
use toggle_web_baker.Common.{
  ℕ, String, Bool, true, false, not, ◌&&◌, ◌||◌, ◌==◌, leb, Option, none, some, List, all,
  if◌then◌else◌, str_eq, codes, length, is_some, Result, ok, err, ◌>>◌, Map, text_at,
}
use toggle_web_baker.Common.Int.{ℤ}
use toggle_web_baker.Api.App.{
  App, reason_config_error, reason_image_not_allowed, reason_unknown_node_version,
  reason_invalid_spec, reason_invalid_storage, reason_invalid_storage_class,
  reason_invalid_repo_auth,
}
use toggle_web_baker.Api.Spec.{AppSpec, WatchCommitsSpec}
use toggle_web_baker.Domain.Registry.{
  RegistryError, not_allowed, index_out_of_range, check_images_allowed,
}
use toggle_web_baker.Domain.NodeImage.{lookup_node_image}
use toggle_web_baker.Domain.WatchSchedule.{WatchError, watch_cron}
use toggle_web_baker.Domain.Storage.{StorageError}
use toggle_web_baker.Controller.Exec.{ApiError, not_found, already_exists, other}
use toggle_web_baker.Controller.Inputs.{phase_images}
use toggle_web_baker.Controller.Config.File.{OperatorConfig, ConfigError}
use toggle_web_baker.Controller.Config.Load.{validate}

-- What is found wrong. `image_index` is the panic of an index in the check of the images.
pub data Rejection : Type 0 where
  bad_config : ConfigError → Rejection
  image_refused : String → String → Rejection
  image_index : Rejection
  unknown_node_version : ℕ → Rejection
  bad_watch_interval : WatchError → Rejection
  pinned_ref : String → Rejection
  repo_auth_missing : String → Rejection
  repo_auth_unread : ApiError → Rejection
  repo_auth_incomplete : String → String → Rejection
  bad_storage : StorageError → Rejection
  no_storage_class : Rejection
  unread_storage_class : ApiError → Rejection
  not_wait_for_first_consumer : String → Rejection

-- The reason of the conditions.
unfoldable pub reason : Rejection → String
reason (bad_config e) = reason_config_error
reason (image_refused phase image) = reason_image_not_allowed
reason image_index = reason_image_not_allowed
reason (unknown_node_version n) = reason_unknown_node_version
reason (bad_watch_interval e) = reason_invalid_spec
reason (pinned_ref r) = reason_invalid_spec
reason (repo_auth_missing name) = reason_invalid_repo_auth
reason (repo_auth_unread e) = reason_invalid_repo_auth
reason (repo_auth_incomplete name key) = reason_invalid_repo_auth
reason (bad_storage e) = reason_invalid_storage
reason no_storage_class = reason_invalid_storage_class
reason (unread_storage_class e) = reason_invalid_storage_class
reason (not_wait_for_first_consumer name) = reason_invalid_storage_class

-- The check panics, where the others return an error.
abbrev pub panics : Rejection → Bool
panics image_index = true
panics (bad_config e) = false
panics (image_refused phase image) = false
panics (unknown_node_version n) = false
panics (bad_watch_interval e) = false
panics (pinned_ref r) = false
panics (repo_auth_missing name) = false
panics (repo_auth_unread e) = false
panics (repo_auth_incomplete name key) = false
panics (bad_storage e) = false
panics no_storage_class = false
panics (unread_storage_class e) = false
panics (not_wait_for_first_consumer name) = false

-- `shaRefPattern`: forty hexadecimal digits.
abbrev pub is_hex : ℕ → Bool
is_hex c = leb b'0' c && leb c b'9' || leb b'a' c && leb c b'f'

unfoldable pub is_pinned : String → Bool
is_pinned ref = length (codes ref) == 40 && all is_hex (codes ref)

abbrev pub interval_error : Result WatchError (List ℕ) → Result Rejection (Unit {0})
interval_error (err e) = err (bad_watch_interval e)
interval_error (ok cron) = ok tt

unfoldable pub validate_watched :
    (String → Option ℤ) → WatchCommitsSpec → String → Result Rejection (Unit {0})
unfolding watch_cron is_pinned
validate_watched parse_duration wc ref =
    (if str_eq wc.interval ""
      then ok tt
      else interval_error (watch_cron parse_duration wc.interval))
    >> (if is_pinned ref then err (pinned_ref ref) else ok tt)

unfoldable pub validate_watch_commits : (String → Option ℤ) → AppSpec → Result Rejection (Unit {0})
unfolding validate_watched
validate_watch_commits parse_duration spec = elim spec.watch_commits [
  | none ↦ ok tt
  | some wc ↦ if not wc.enabled then ok tt else validate_watched parse_duration wc spec.ref
]

abbrev pub image_error : Result RegistryError (Unit {0}) → Result Rejection (Unit {0})
image_error (ok u) = ok tt
image_error (err (not_allowed phase image)) = err (image_refused phase image)
image_error (err index_out_of_range) = err image_index

abbrev pub config_error : Result ConfigError (Unit {0}) → Result Rejection (Unit {0})
config_error (ok u) = ok tt
config_error (err e) = err (bad_config e)

abbrev pub storage_error : Result StorageError (Unit {0}) → Result Rejection (Unit {0})
storage_error (ok u) = ok tt
storage_error (err e) = err (bad_storage e)

-- `checkGitCredentialData`: the first of the two keys whose value is missing or empty.
abbrev pub check_git_credential_data : Map String → Option String
check_git_credential_data entries =
    if str_eq (text_at "username" entries) ""
    then some "username"
    else if str_eq (text_at "password" entries) ""
    then some "password"
    else none

abbrev pub check_secret : String → Result ApiError (Map String) → Result Rejection (Unit {0})
check_secret name (err not_found) = err (repo_auth_missing name)
check_secret name (err already_exists) = err (repo_auth_unread already_exists)
check_secret name (err (other m)) = err (repo_auth_unread (other m))
check_secret name (ok entries) = elim (check_git_credential_data entries) [
  | none ↦ ok tt
  | some key ↦ err (repo_auth_incomplete name key)
]

-- `get_secret` reads the data of the Secret of a name in a namespace.
unfoldable pub validate_repo_auth_secret :
    (String → String → Result ApiError (Map String)) → App → Result Rejection (Unit {0})
validate_repo_auth_secret get_secret app = elim app.spec.repo_auth [
  | none ↦ ok tt
  | some name ↦ check_secret name (get_secret app.namespace name)
]

-- The class is given by whether it binds its volumes for the first consumer.
unfoldable pub validate_storage_class : String → Result ApiError Bool → Result Rejection (Unit {0})
validate_storage_class name (err e) =
    if str_eq name "" then err no_storage_class else err (unread_storage_class e)
validate_storage_class name (ok waits) =
    if str_eq name ""
    then err no_storage_class
    else if waits
    then ok tt
    else err (not_wait_for_first_consumer name)

module _ {Q : Type 0} (config : OperatorConfig Q) where
  unfoldable pub validate_node_version : AppSpec → Result Rejection (Unit {0})
  unfolding lookup_node_image
  validate_node_version spec =
      let n = spec.pipeline.node_version in
      if n == 0 || is_some (lookup_node_image config.node_images n)
      then ok tt
      else err (unknown_node_version n)

  -- Steps 1 to 2c.
  unfoldable pub admit :
      (String → Bool) → (String → Option ℤ) → AppSpec → Result Rejection (Unit {0})
  unfolding validate check_images_allowed phase_images validate_node_version validate_watch_commits
  admit is_cidr parse_duration spec =
      config_error (validate is_cidr config)
      >> (image_error (check_images_allowed config.registry_allowlist (phase_images spec))
          >> (validate_node_version spec >> validate_watch_commits parse_duration spec))
