-- ===== src/Api/Json.antt =====
-- api/v1alpha1/app_types.go: the status of an App as the JSON object that the operator stores, by the
-- `json` tags of the fields. `omitempty` leaves out an empty text, a zero, `false`, a nil pointer, and
-- an empty list or map; a nested structure is always there. `format_time` is how `metav1.Time` is
-- printed; a `metav1.Condition` has the keys that Kubernetes documents.
pub mod Fields
use toggle_web_baker.Common.{
  ℕ, String, Bool, true, false, Option, none, some, List, [], ◌∷◌, if◌then◌else◌, str_eq, map, Map,
}
use toggle_web_baker.Common.Int.{ℤ, pos, eqb_ℤ}
use toggle_web_baker.Domain.Storage.{ThresholdState, not_measured, all_ok, alert, critical}
use toggle_web_baker.Api.Status.{
  Phase, BuildResult, StepStatus, BuildTrigger, BuildPhase, CleanupPhase, ConditionStatus, is_true,
  is_false, is_unknown, Condition, BuildStep, BuildTermination, BuildStatus, ReleaseStatus,
  StorageStatus, CleanupActionStatus, CleanupStatus, ManualTrigger, AppStatus,
}
use toggle_web_baker.Console.Value.{
  Value, text, boolean, integer, array, object, of_items, of_entries,
}
use toggle_web_baker.Api.Json.Fields.{
  present, omit_text, omit_int, omit_nat, omit_true, omit_empty, omit_fields,
}

abbrev pub phase_text : Phase → String
phase_text Phase.unset = ""
phase_text Phase.awaiting_first_build = "AwaitingFirstBuild"
phase_text Phase.building = "Building"
phase_text Phase.ready = "Ready"
phase_text Phase.degraded = "Degraded"

abbrev pub result_text : BuildResult → String
result_text BuildResult.unset = ""
result_text BuildResult.succeeded = "Succeeded"
result_text BuildResult.failed = "Failed"
result_text BuildResult.aborted = "Aborted"

abbrev pub step_text : StepStatus → String
step_text StepStatus.pending = "Pending"
step_text StepStatus.running = "Running"
step_text StepStatus.succeeded = "Succeeded"
step_text StepStatus.failed = "Failed"
step_text StepStatus.aborted = "Aborted"

abbrev pub trigger_text : BuildTrigger → String
trigger_text BuildTrigger.unset = ""
trigger_text BuildTrigger.scheduled = "Scheduled"
trigger_text BuildTrigger.manual = "Manual"
trigger_text BuildTrigger.spec_change = "SpecChange"
trigger_text BuildTrigger.commit = "Commit"

abbrev pub build_phase_text : BuildPhase → String
build_phase_text BuildPhase.unset = ""
build_phase_text BuildPhase.pending = "Pending"
build_phase_text BuildPhase.running = "Running"
build_phase_text BuildPhase.complete = "Complete"

abbrev pub cleanup_phase_text : CleanupPhase → String
cleanup_phase_text CleanupPhase.unset = ""
cleanup_phase_text CleanupPhase.pending = "Pending"
cleanup_phase_text CleanupPhase.running = "Running"
cleanup_phase_text CleanupPhase.succeeded = "Succeeded"
cleanup_phase_text CleanupPhase.failed = "Failed"

abbrev pub condition_text : ConditionStatus → String
condition_text is_true = "True"
condition_text is_false = "False"
condition_text is_unknown = "Unknown"

abbrev pub threshold_text : ThresholdState → String
threshold_text not_measured = ""
threshold_text all_ok = "OK"
threshold_text alert = "Alert"
threshold_text critical = "Critical"

abbrev pub encode_numbers : Map ℤ → Map Value
encode_numbers = map (λ e. (e.0, integer e.1))

module _ (format_time : ℕ → String) where
  abbrev pub omit_time : Option ℕ → Option Value
  omit_time none = none
  omit_time (some t) = some (text (format_time t))

  abbrev pub condition_fields : Condition → List (String × Option Value)
  condition_fields c =
      ("type", some (text c.type_))
      ∷ ("status", some (text (condition_text c.status)))
      ∷ ("observedGeneration", omit_nat c.observed_generation)
      ∷ ("lastTransitionTime", some (text (format_time c.last_transition_time)))
      ∷ ("reason", some (text c.reason))
      ∷ ("message", some (text c.message))
      ∷ []

  unfoldable pub encode_condition : Condition → Value
  encode_condition c = object (present (condition_fields c))

  abbrev pub step_fields : BuildStep → List (String × Option Value)
  step_fields s =
      ("name", some (text s.name))
      ∷ ("status", some (text (step_text s.status)))
      ∷ ("message", omit_text s.message)
      ∷ ("peakMemoryBytes", omit_nat s.peak_memory_bytes)
      ∷ ("startedAt", omit_time s.started_at)
      ∷ ("finishedAt", omit_time s.finished_at)
      ∷ ("memoryLimit", omit_text s.memory_limit)
      ∷ []

  unfoldable pub encode_step : BuildStep → Value
  encode_step s = object (present (step_fields s))

  abbrev pub termination_fields : BuildTermination → List (String × Option Value)
  termination_fields t =
      ("reason", omit_text t.reason)
      ∷ ("container", omit_text t.container)
      ∷ ("exitCode", omit_int t.exit_code)
      ∷ ("memoryLimit", omit_text t.memory_limit)
      ∷ ("finishedAt", omit_time t.finished_at)
      ∷ []

  unfoldable pub encode_termination : BuildTermination → Value
  encode_termination t = object (present (termination_fields t))

  abbrev pub omit_termination : Option BuildTermination → Option Value
  unfolding encode_termination
  omit_termination none = none
  omit_termination (some t) = some (encode_termination t)

  abbrev pub build_fields : BuildStatus → List (String × Option Value)
  build_fields b =
      ("phase", omit_text (build_phase_text b.phase))
      ∷ ("result", omit_text (result_text b.result))
      ∷ ("jobName", omit_text b.job_name)
      ∷ ("podName", omit_text b.pod_name)
      ∷ ("startTime", omit_time b.start_time)
      ∷ ("completionTime", omit_time b.completion_time)
      ∷ ("attempts", omit_nat b.attempts)
      ∷ ("trigger", omit_text (trigger_text b.trigger))
      ∷ ("triggeredBy", omit_text b.triggered_by)
      ∷ ("commit", omit_text b.commit)
      ∷ ("steps", omit_empty (map encode_step b.steps))
      ∷ ("resolvedImages", omit_fields (map (λ e. (e.0, text e.1)) b.resolved_images))
      ∷ ("failedStep", omit_text b.failed_step)
      ∷ ("message", omit_text b.message)
      ∷ ("logsRef", omit_text b.logs_ref)
      ∷ ("termination", omit_termination b.termination)
      ∷ []

  unfoldable pub encode_build : BuildStatus → Value
  encode_build b = object (present (build_fields b))

  abbrev pub release_fields : ReleaseStatus → List (String × Option Value)
  release_fields r =
      ("current", omit_text r.current)
      ∷ ("previous", omit_text r.previous)
      ∷ ("servingSince", omit_time r.serving_since)
      ∷ []

  unfoldable pub encode_release : ReleaseStatus → Value
  encode_release r = object (present (release_fields r))

  abbrev pub storage_fields : StorageStatus → List (String × Option Value)
  storage_fields s =
      ("measuredAt", omit_time s.measured_at)
      ∷ ("sizes", omit_fields (encode_numbers s.sizes))
      ∷ ("lastRunDeltas", omit_fields (encode_numbers s.last_run_deltas))
      ∷ ("thresholdState", omit_text (threshold_text s.threshold_state))
      ∷ ("releaseCount", omit_int s.release_count)
      ∷ ("capacities", omit_fields (encode_numbers s.capacities))
      ∷ []

  unfoldable pub encode_storage : StorageStatus → Value
  encode_storage s = object (present (storage_fields s))

  abbrev pub cleanup_action_fields : CleanupActionStatus → List (String × Option Value)
  cleanup_action_fields c =
      ("requestedAt", omit_text c.requested_at)
      ∷ ("requestedBy", omit_text c.requested_by)
      ∷ ("phase", omit_text (cleanup_phase_text c.phase))
      ∷ ("startedAt", omit_time c.started_at)
      ∷ ("completedAt", omit_time c.completed_at)
      ∷ ("reclaimedBytes", omit_int c.reclaimed_bytes)
      ∷ ("message", omit_text c.message)
      ∷ []

  unfoldable pub encode_cleanup_action : CleanupActionStatus → Value
  encode_cleanup_action c = object (present (cleanup_action_fields c))

  abbrev pub omit_cleanup_action : Option CleanupActionStatus → Option Value
  unfolding encode_cleanup_action
  omit_cleanup_action none = none
  omit_cleanup_action (some c) = some (encode_cleanup_action c)

  abbrev pub cleanup_fields : CleanupStatus → List (String × Option Value)
  cleanup_fields c =
      ("cache", omit_cleanup_action c.cache) ∷ ("releases", omit_cleanup_action c.releases) ∷ []

  unfoldable pub encode_cleanup : CleanupStatus → Value
  encode_cleanup c = object (present (cleanup_fields c))

  abbrev pub omit_cleanup : Option CleanupStatus → Option Value
  unfolding encode_cleanup
  omit_cleanup none = none
  omit_cleanup (some c) = some (encode_cleanup c)

  abbrev pub manual_trigger_fields : ManualTrigger → List (String × Option Value)
  manual_trigger_fields t =
      ("triggeredBy", omit_text t.triggered_by) ∷ ("time", omit_time t.time) ∷ []

  unfoldable pub encode_manual_trigger : ManualTrigger → Value
  encode_manual_trigger t = object (present (manual_trigger_fields t))

  abbrev pub status_fields : AppStatus → List (String × Option Value)
  status_fields s =
      ("observedGeneration", omit_nat s.observed_generation)
      ∷ ("phase", omit_text (phase_text s.phase))
      ∷ ("nodeName", omit_text s.node_name)
      ∷ ("url", omit_text s.url)
      ∷ ("specStale", omit_true s.spec_stale)
      ∷ ("conditions", omit_empty (map encode_condition s.conditions))
      ∷ ("build", some (encode_build s.build))
      ∷ ("consecutiveScheduledFailures", omit_nat s.consecutive_scheduled_failures)
      ∷ ("buildHistory", omit_empty (map encode_build s.build_history))
      ∷ ("failedBuildHistory", omit_empty (map encode_build s.failed_build_history))
      ∷ ("lastProcessedRebuild", omit_text s.last_processed_rebuild)
      ∷ ("lastBuiltSpecHash", omit_text s.last_built_spec_hash)
      ∷ ("lastBuildTime", omit_time s.last_build_time)
      ∷ ("lastSuccessfulBuildTime", omit_time s.last_successful_build_time)
      ∷ ("release", some (encode_release s.release))
      ∷ ("storage", some (encode_storage s.storage))
      ∷ ("lastManualTrigger", some (encode_manual_trigger s.last_manual_trigger))
      ∷ ("cleanup", omit_cleanup s.cleanup)
      ∷ []

  unfoldable pub encode_status : AppStatus → Value
  encode_status s = object (present (status_fields s))
