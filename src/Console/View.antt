-- ===== src/Console/View.antt =====
-- console/internal/view/model.go: `FromUnstructured`, which makes the view of an App from the object.
-- The namespace, the name and the annotations are what the object's accessors give.
use toggle_web_baker.Common.{ℕ, String, true, false, Option, none, some, [], Map, text_at}
use toggle_web_baker.Common.Int.{ℤ, pos}
use toggle_web_baker.Console.Value.{Value, as_map, at, as_string, as_int, as_bool}
use toggle_web_baker.Console.Model.{App, ScheduledBuilds, WatchCommits}
use toggle_web_baker.Console.From.{
  no_release, no_build, no_cleanup_action, conditions_from, build_from, build_history_from,
  release_from, cleanup_from, manual_trigger_from,
}
use toggle_web_baker.Console.Volumes.{map_or_empty, storage_from, no_storage}
use toggle_web_baker.Console.Timing.{next_scheduled}

pub record Object : Type 0 where
  pub namespace : String
  pub name : String
  pub annotations : Map String
  pub content : Map Value

abbrev pub watch_last_seen_annotation : String
watch_last_seen_annotation = "watch.baker.toggle-corp.com/last-seen-sha"

unfoldable pub scheduled_builds_from : Value → ScheduledBuilds
unfolding as_bool as_string
scheduled_builds_from v = elim (as_map v) [
  | none ↦ record { enabled = false; schedule = "" }
  | some sb ↦ record {
    enabled = as_bool (at "enabled" sb);
    schedule = as_string (at "schedule" sb);
  }
]

unfoldable pub watch_commits_from : Value → String → WatchCommits
unfolding as_bool as_string
watch_commits_from v seen = elim (as_map v) [
  | none ↦ record { enabled = false; interval = ""; last_seen_sha = seen }
  | some wc ↦ record {
    enabled = as_bool (at "enabled" wc);
    interval = as_string (at "interval" wc);
    last_seen_sha = seen;
  }
]

module _ (one_decimal : ℕ → ℕ → String) (percent : ℤ → ℤ → ℤ)
    (next_fire : String → Option String) where
  -- The part that is read before the status is looked at.
  unfoldable pub from_spec : Object → Map Value → App
  unfolding as_string scheduled_builds_from watch_commits_from next_scheduled
  from_spec obj spec = record {
    namespace = obj.namespace;
    name = obj.name;
    group = as_string (at "group" spec);
    observed_generation = pos 0;
    phase = "";
    node_name = "";
    url = "";
    spec_stale = false;
    conditions = [];
    build = no_build one_decimal;
    build_history = [];
    last_processed_rebuild = "";
    last_built_spec_hash = "";
    last_build_time = "";
    last_successful_build = "";
    next_scheduled_build_time =
        next_scheduled next_fire (scheduled_builds_from (at "scheduledBuilds" spec));
    release = no_release;
    storage = no_storage one_decimal percent;
    cleanup = record { cache = no_cleanup_action; releases = no_cleanup_action };
    manual_trigger = record { triggered_by = ""; time = "" };
    repo = as_string (at "repo" spec);
    scheduled_builds = scheduled_builds_from (at "scheduledBuilds" spec);
    watch_commits =
        watch_commits_from (at "watchCommits" spec)
          (text_at watch_last_seen_annotation obj.annotations);
    has_status = false;
  }

  unfoldable pub with_status : App → Option (Map Value) → Map Value → App
  unfolding as_string as_int as_bool conditions_from build_from build_history_from release_from
      storage_from cleanup_from manual_trigger_from
  with_status a storage_spec status = record a {
    has_status = true;
    observed_generation = as_int (at "observedGeneration" status);
    phase = as_string (at "phase" status);
    node_name = as_string (at "nodeName" status);
    url = as_string (at "url" status);
    spec_stale = as_bool (at "specStale" status);
    last_processed_rebuild = as_string (at "lastProcessedRebuild" status);
    last_built_spec_hash = as_string (at "lastBuiltSpecHash" status);
    last_build_time = as_string (at "lastBuildTime" status);
    last_successful_build = as_string (at "lastSuccessfulBuildTime" status);
    conditions = conditions_from (at "conditions" status);
    build = build_from one_decimal (at "build" status);
    build_history = build_history_from one_decimal (at "buildHistory" status);
    release = release_from (at "release" status);
    storage = storage_from one_decimal percent (at "storage" status) storage_spec;
    cleanup = cleanup_from (at "cleanup" status);
    manual_trigger = manual_trigger_from (at "lastManualTrigger" status);
  }

  unfoldable pub from_unstructured : Object → App
  unfolding from_spec with_status
  from_unstructured obj =
      let spec = map_or_empty (as_map (at "spec" obj.content)) in
      let a = from_spec obj spec in
      elim (as_map (at "status" obj.content)) [
        | none ↦ a
        | some status ↦ with_status a (as_map (at "storage" spec)) status
      ]
