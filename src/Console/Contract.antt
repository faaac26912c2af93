-- ===== src/Console/Contract.antt =====
-- What the console is to show of a status: the independent description that reading the stored object
-- is compared with. A time that is not set is shown as the empty text.
pub mod Reading
pub mod Builds
pub mod Apps
pub mod Health
use toggle_web_baker.Common.{ℕ, String, Option, none, some, List, map, Map, true}
use toggle_web_baker.Common.Int.{ℤ, pos}
use toggle_web_baker.Api.Json.{
  phase_text, result_text, step_text, trigger_text, build_phase_text, cleanup_phase_text,
  condition_text, threshold_text, encode_numbers,
}
use toggle_web_baker.Api.Status.{
  Condition, BuildStep, BuildTermination, BuildStatus, ReleaseStatus, CleanupActionStatus,
  CleanupStatus, ManualTrigger, StorageStatus, AppStatus,
}
use toggle_web_baker.Console.Model as Model
use toggle_web_baker.Console.Human.{humanize_bytes}
use toggle_web_baker.Common.Order.{sort}
use toggle_web_baker.Console.Value.{Value}
use toggle_web_baker.Console.Volumes.{volume_row}
use toggle_web_baker.Console.From.{peak_memory, no_cleanup_action}

module _ (format_time : ℕ → String) where
  abbrev pub shown_time : Option ℕ → String
  shown_time none = ""
  shown_time (some t) = format_time t

  abbrev pub shown_condition : Condition → Model.Condition
  shown_condition c = record {
    type_ = c.type_;
    status = condition_text c.status;
    reason = c.reason;
    message = c.message;
    last_transition_time = format_time c.last_transition_time;
  }

  abbrev pub shown_termination : BuildTermination → Model.Termination
  shown_termination t = record {
    reason = t.reason;
    container = t.container;
    memory_limit = t.memory_limit;
    finished_at = shown_time t.finished_at;
    exit_code = t.exit_code;
  }

  abbrev pub shown_termination_of : Option BuildTermination → Option Model.Termination
  shown_termination_of none = none
  shown_termination_of (some t) = some (shown_termination t)

  abbrev pub shown_release : ReleaseStatus → Model.Release
  shown_release r = record {
    current = r.current;
    previous = r.previous;
    serving_since = shown_time r.serving_since;
  }

  abbrev pub shown_cleanup_action : Option CleanupActionStatus → Model.CleanupAction
  shown_cleanup_action none = no_cleanup_action
  shown_cleanup_action (some c) = record {
    requested_at = c.requested_at;
    requested_by = c.requested_by;
    phase = cleanup_phase_text c.phase;
    last_completed = shown_time c.completed_at;
    message = c.message;
    reclaimed_bytes = c.reclaimed_bytes;
  }

  abbrev pub shown_cleanup : Option CleanupStatus → Model.Cleanup
  shown_cleanup none = record { cache = no_cleanup_action; releases = no_cleanup_action }
  shown_cleanup (some c) = record {
    cache = shown_cleanup_action c.cache;
    releases = shown_cleanup_action c.releases;
  }

  module _ (one_decimal : ℕ → ℕ → String) where
    abbrev pub shown_step : BuildStep → Model.Step
    unfolding peak_memory
    shown_step s = record {
      name = s.name;
      status = step_text s.status;
      message = s.message;
      peak_memory = peak_memory one_decimal (pos s.peak_memory_bytes);
      memory_limit = s.memory_limit;
      started_at = shown_time s.started_at;
      finished_at = shown_time s.finished_at;
    }

    abbrev pub shown_build : BuildStatus → Model.Build
    shown_build b = record {
      phase = build_phase_text b.phase;
      result = result_text b.result;
      job_name = b.job_name;
      pod_name = b.pod_name;
      trigger = trigger_text b.trigger;
      triggered_by = b.triggered_by;
      commit = b.commit;
      start_time = shown_time b.start_time;
      completion_time = shown_time b.completion_time;
      attempts = pos b.attempts;
      failed_step = b.failed_step;
      message = b.message;
      logs_ref = b.logs_ref;
      steps = map shown_step b.steps;
      termination = shown_termination_of b.termination;
    }

  abbrev pub shown_manual_trigger : ManualTrigger → Model.ManualTrigger
  shown_manual_trigger t = record { triggered_by = t.triggered_by; time = shown_time t.time }

  unfoldable pub shown_conditions : List Condition → List Model.Condition
  unfolding sort
  shown_conditions cs = sort (λ c. c.type_) (map shown_condition cs)

  -- The rows of the sizes, in the order of their names.
  module _ (one_decimal : ℕ → ℕ → String) (percent : ℤ → ℤ → ℤ)
      (storage_spec : Option (Map Value)) where
    unfoldable pub shown_storage : StorageStatus → Model.Storage
    unfolding volume_row sort
    shown_storage s = record {
      measured_at = shown_time s.measured_at;
      threshold_state = threshold_text s.threshold_state;
      release_count = s.release_count;
      volumes =
          sort (λ v. v.name)
            (map
              (volume_row one_decimal percent (encode_numbers s.last_run_deltas) storage_spec
                (encode_numbers s.capacities) s.release_count)
              (encode_numbers s.sizes));
    }

    -- The view of an App whose spec alone was read, completed by its status.
    unfoldable pub shown_status : Model.App → AppStatus → Model.App
    unfolding shown_conditions shown_storage
    shown_status a s = record a {
      has_status = true;
      observed_generation = pos s.observed_generation;
      phase = phase_text s.phase;
      node_name = s.node_name;
      url = s.url;
      spec_stale = s.spec_stale;
      last_processed_rebuild = s.last_processed_rebuild;
      last_built_spec_hash = s.last_built_spec_hash;
      last_build_time = shown_time s.last_build_time;
      last_successful_build = shown_time s.last_successful_build_time;
      conditions = shown_conditions s.conditions;
      build = shown_build one_decimal s.build;
      build_history = map (shown_build one_decimal) s.build_history;
      release = shown_release s.release;
      storage = shown_storage s.storage;
      cleanup = shown_cleanup s.cleanup;
      manual_trigger = shown_manual_trigger s.last_manual_trigger;
    }
