-- ===== src/Api/App.antt =====
-- api/v1alpha1/app_types.go: the App resource and the names that the operator writes into it.
use toggle_web_baker.Common.{ℕ, String, Map}
use toggle_web_baker.Api.Spec.{AppSpec}
use toggle_web_baker.Api.Status.{AppStatus}

pub record App : Type 0 where
  pub name : String
  pub namespace : String
  pub uid : String
  pub generation : ℕ
  pub annotations : Map String
  pub spec : AppSpec
  pub status : AppStatus

-- The keys of annotations.
abbrev pub rebuild_annotation : String
rebuild_annotation = "rebuild.baker.toggle-corp.com/requested-at"

abbrev pub rebuild_by_annotation : String
rebuild_by_annotation = "rebuild.baker.toggle-corp.com/by"

abbrev pub rebuild_commit_annotation : String
rebuild_commit_annotation = "rebuild.baker.toggle-corp.com/commit"

abbrev pub spec_hash_annotation : String
spec_hash_annotation = "baker.toggle-corp.com/spec-hash"

abbrev pub cleanup_cache_requested_at_annotation : String
cleanup_cache_requested_at_annotation = "cleanup-cache.baker.toggle-corp.com/requested-at"

abbrev pub cleanup_cache_by_annotation : String
cleanup_cache_by_annotation = "cleanup-cache.baker.toggle-corp.com/by"

abbrev pub cleanup_releases_requested_at_annotation : String
cleanup_releases_requested_at_annotation = "cleanup-releases.baker.toggle-corp.com/requested-at"

abbrev pub cleanup_releases_by_annotation : String
cleanup_releases_by_annotation = "cleanup-releases.baker.toggle-corp.com/by"

-- The types of conditions.
abbrev pub condition_ready : String
condition_ready = "Ready"

abbrev pub condition_build_succeeded : String
condition_build_succeeded = "BuildSucceeded"

abbrev pub condition_degraded : String
condition_degraded = "Degraded"

-- The reasons of conditions.
abbrev pub reason_awaiting_first_build : String
reason_awaiting_first_build = "AwaitingFirstBuild"

abbrev pub reason_building : String
reason_building = "Building"

abbrev pub reason_ready : String
reason_ready = "Ready"

abbrev pub reason_config_error : String
reason_config_error = "ConfigError"

abbrev pub reason_image_not_allowed : String
reason_image_not_allowed = "ImageNotAllowed"

abbrev pub reason_unknown_node_version : String
reason_unknown_node_version = "UnknownNodeVersion"

abbrev pub reason_invalid_spec : String
reason_invalid_spec = "InvalidSpec"

abbrev pub reason_invalid_storage : String
reason_invalid_storage = "InvalidStorage"

abbrev pub reason_invalid_storage_class : String
reason_invalid_storage_class = "InvalidStorageClass"

abbrev pub reason_invalid_repo_auth : String
reason_invalid_repo_auth = "InvalidRepoAuth"

abbrev pub reason_build_failed : String
reason_build_failed = "BuildFailed"

abbrev pub reason_oom_killed : String
reason_oom_killed = "OOMKilled"

-- The steps of the pipeline, which are the names of the containers, but for the last.
abbrev pub step_clone : String
step_clone = "clone"

abbrev pub step_setup : String
step_setup = "setup"

abbrev pub step_fetch : String
step_fetch = "fetch"

abbrev pub step_build : String
step_build = "build"

abbrev pub step_copier : String
step_copier = "copier"

abbrev pub step_release : String
step_release = "release"
