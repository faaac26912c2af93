-- ===== src/Controller/Cleanup/Actions.antt =====
-- internal/controller/cleanup.go: the requested actions and their records in the status. `Settings`
-- holds what is not modelled: `strconv.Itoa`, the two fields of the configuration, `json.Unmarshal` of
-- the trimmed message into a CleanupResult, and the text of `summarizeCleanup`, which is only shown.
use toggle_web_baker.Common.{
  ℕ, String, Bool, not, Option, none, some, List, [], ◌∷◌, if◌then◌else◌, str_eq, any, is_some,
  text_at, Codes,
}
use toggle_web_baker.Common.Int.{ℤ, pos}
use toggle_web_baker.Api.Status.{CleanupPhase, CleanupActionStatus, CleanupStatus, AppStatus}
use toggle_web_baker.Api.App.{
  App, cleanup_cache_requested_at_annotation, cleanup_cache_by_annotation,
  cleanup_releases_requested_at_annotation, cleanup_releases_by_annotation,
}
use toggle_web_baker.Cluster.{Job}
use toggle_web_baker.Controller.Exec.{Client, Run, ◌>>>◌, pure, query, job_finished}
use toggle_web_baker.Controller.Cleanup.Job.{mode_cache, mode_releases, cleanup_labels_for}

-- The termination message of the cleanup image.
pub record CleanupResult : Type 0 where
  pub action : String
  pub reason : String
  pub before : ℤ
  pub after : ℤ
  pub reclaimed : ℤ
  pub threshold : ℤ
  pub kept : ℤ
  pub deleted : ℤ

pub record Settings : Type 0 where
  pub itoa : ℕ → String
  pub image : String
  pub pull_secret : String
  pub parse_result : Codes → Option CleanupResult
  pub summary : CleanupResult → String

pub record CleanupAction : Type 0 where
  pub mode : String
  pub requested_at : String
  pub requested_by : String

unfoldable pub cleanup_actions_for : App → List CleanupAction
cleanup_actions_for app =
    record {
      mode = mode_cache;
      requested_at = text_at cleanup_cache_requested_at_annotation app.annotations;
      requested_by = text_at cleanup_cache_by_annotation app.annotations;
    }
    ∷ record {
      mode = mode_releases;
      requested_at = text_at cleanup_releases_requested_at_annotation app.annotations;
      requested_by = text_at cleanup_releases_by_annotation app.annotations;
    }
    ∷ []

abbrev pub new_action : CleanupActionStatus
new_action = record {
  requested_at = "";
  requested_by = "";
  phase = CleanupPhase.unset;
  started_at = none;
  completed_at = none;
  reclaimed_bytes = pos 0;
  message = "";
}

abbrev pub cleanup_or_new : Option CleanupStatus → CleanupStatus
cleanup_or_new none = record { cache = none; releases = none }
cleanup_or_new (some c) = c

abbrev pub action_or_new : Option CleanupActionStatus → CleanupActionStatus
action_or_new none = new_action
action_or_new (some a) = a

-- The record that `actionStatus` points at, and a write through that pointer.
unfoldable pub action_status : AppStatus → String → CleanupActionStatus
action_status status mode =
    let c = cleanup_or_new status.cleanup in
    if str_eq mode mode_releases then action_or_new c.releases else action_or_new c.cache

unfoldable pub put_action : App → String → CleanupActionStatus → App
put_action app mode a =
    let c = cleanup_or_new app.status.cleanup in
    record app {
      status = record app.status {
        cleanup = some (
            if str_eq mode mode_releases
            then record c { releases = some a }
            else record c { cache = some a });
      };
    }

-- `actionStatus` creates the records that are missing.
abbrev pub touch_action : String → App → App
touch_action mode app = put_action app mode (action_status app.status mode)

unfoldable pub size_key_for_cleanup_mode : String → String
size_key_for_cleanup_mode mode = if str_eq mode mode_releases then "outputTotal" else "cache"

module _ {W : Type 0} (client : Client W) where
  abbrev pub list_cleanup_jobs : Run W (List Job)
  list_cleanup_jobs = query (λ app w. client.list_jobs app.namespace (cleanup_labels_for app) w)

  unfoldable pub cleanup_active : Run W Bool
  cleanup_active =
      list_cleanup_jobs >>> λ jobs. pure (any (λ j. not (is_some (job_finished j))) jobs)
