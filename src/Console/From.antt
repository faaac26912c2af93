-- ===== src/Console/From.antt =====
-- console/internal/view/model.go: what the console makes of the object's status, piece by piece. A
-- missing or mistyped field is left at its zero value.
use toggle_web_baker.Common.{
  ℕ, String, Option, none, some, List, [], ◌∷◌, if◌then◌else◌, str_eq, map, Map,
}
use toggle_web_baker.Common.Int.{ℤ, pos, ltb_ℤ}
use toggle_web_baker.Common.Order.{sort}
use toggle_web_baker.Console.Value.{Value, as_map, as_list, at, as_string, as_int}
use toggle_web_baker.Console.Human.{humanize_bytes}
use toggle_web_baker.Console.Model.{
  Condition, Step, Termination, Build, Release, CleanupAction, Cleanup, ManualTrigger,
}

-- The entries of a list that are maps, each read by `read`.
abbrev pub each_map {ℓ} : {A : Type ℓ} → (Map Value → A) → List Value → List A
each_map read [] = []
each_map read (v ∷ vs) = elim (as_map v) [
  | none ↦ each_map read vs
  | some m ↦ read m ∷ each_map read vs
]

-- `if m, ok := v.(map[string]any); !ok { return zero }`
abbrev pub map_or {ℓ} : {A : Type ℓ} → A → (Map Value → A) → Value → A
map_or zero_value read v = elim (as_map v) [ none ↦ zero_value | some m ↦ read m ]

abbrev pub list_or_empty : Value → List Value
list_or_empty v = elim (as_list v) [ none ↦ [] | some l ↦ l ]

unfoldable pub condition_of : Map Value → Condition
unfolding as_string
condition_of m = record {
  type_ = as_string (at "type" m);
  status = as_string (at "status" m);
  reason = as_string (at "reason" m);
  message = as_string (at "message" m);
  last_transition_time = as_string (at "lastTransitionTime" m);
}

unfoldable pub conditions_from : Value → List Condition
unfolding condition_of sort
conditions_from v = sort (λ c. c.type_) (each_map condition_of (list_or_empty v))

unfoldable pub termination_of : Map Value → Termination
unfolding as_string as_int
termination_of m = record {
  reason = as_string (at "reason" m);
  container = as_string (at "container" m);
  memory_limit = as_string (at "memoryLimit" m);
  finished_at = as_string (at "finishedAt" m);
  exit_code = as_int (at "exitCode" m);
}

unfoldable pub termination_from : Value → Option Termination
unfolding termination_of
termination_from v = map_or none (λ m. some (termination_of m)) v

unfoldable pub release_of : Map Value → Release
unfolding as_string
release_of m = record {
  current = as_string (at "current" m);
  previous = as_string (at "previous" m);
  serving_since = as_string (at "servingSince" m);
}

abbrev pub no_release : Release
no_release = record { current = ""; previous = ""; serving_since = "" }

unfoldable pub release_from : Value → Release
unfolding release_of
release_from v = map_or no_release release_of v

-- `completedAt`, or the older key where it is empty.
unfoldable pub completed : Map Value → String
unfolding as_string
completed m =
    let at_key = as_string (at "completedAt" m) in
    if str_eq at_key "" then as_string (at "lastCompleted" m) else at_key

unfoldable pub cleanup_action_of : Map Value → CleanupAction
unfolding as_string as_int completed
cleanup_action_of m = record {
  requested_at = as_string (at "requestedAt" m);
  requested_by = as_string (at "requestedBy" m);
  phase = as_string (at "phase" m);
  last_completed = completed m;
  message = as_string (at "message" m);
  reclaimed_bytes = as_int (at "reclaimedBytes" m);
}

abbrev pub no_cleanup_action : CleanupAction
no_cleanup_action = record {
  requested_at = "";
  requested_by = "";
  phase = "";
  last_completed = "";
  message = "";
  reclaimed_bytes = pos 0;
}

unfoldable pub cleanup_action_from : Value → CleanupAction
unfolding cleanup_action_of
cleanup_action_from v = map_or no_cleanup_action cleanup_action_of v

unfoldable pub cleanup_from : Value → Cleanup
unfolding cleanup_action_from
cleanup_from v =
    map_or (record { cache = no_cleanup_action; releases = no_cleanup_action })
      (λ m. record {
        cache = cleanup_action_from (at "cache" m);
        releases = cleanup_action_from (at "releases" m);
      })
      v

unfoldable pub manual_trigger_from : Value → ManualTrigger
unfolding as_string
manual_trigger_from v =
    map_or (record { triggered_by = ""; time = "" })
      (λ m. record {
        triggered_by = as_string (at "triggeredBy" m);
        time = as_string (at "time" m);
      })
      v

module _ (one_decimal : ℕ → ℕ → String) where
  -- A peak that was measured is shown in units.
  unfoldable pub peak_memory : ℤ → String
  unfolding humanize_bytes
  peak_memory b = if ltb_ℤ (pos 0) b then humanize_bytes one_decimal b else ""

  unfoldable pub step_of : Map Value → Step
  unfolding as_string as_int peak_memory
  step_of m = record {
    name = as_string (at "name" m);
    status = as_string (at "status" m);
    message = as_string (at "message" m);
    peak_memory = peak_memory (as_int (at "peakMemoryBytes" m));
    memory_limit = as_string (at "memoryLimit" m);
    started_at = as_string (at "startedAt" m);
    finished_at = as_string (at "finishedAt" m);
  }

  unfoldable pub steps_from : Value → List Step
  unfolding step_of
  steps_from v = each_map step_of (list_or_empty v)

  unfoldable pub build_of : Map Value → Build
  unfolding as_string as_int steps_from termination_from
  build_of m = record {
    phase = as_string (at "phase" m);
    result = as_string (at "result" m);
    job_name = as_string (at "jobName" m);
    pod_name = as_string (at "podName" m);
    trigger = as_string (at "trigger" m);
    triggered_by = as_string (at "triggeredBy" m);
    commit = as_string (at "commit" m);
    start_time = as_string (at "startTime" m);
    completion_time = as_string (at "completionTime" m);
    attempts = as_int (at "attempts" m);
    failed_step = as_string (at "failedStep" m);
    message = as_string (at "message" m);
    logs_ref = as_string (at "logsRef" m);
    steps = steps_from (at "steps" m);
    termination = termination_from (at "termination" m);
  }

  abbrev pub no_build : Build
  no_build = record {
    phase = "";
    result = "";
    job_name = "";
    pod_name = "";
    trigger = "";
    triggered_by = "";
    commit = "";
    start_time = "";
    completion_time = "";
    attempts = pos 0;
    failed_step = "";
    message = "";
    logs_ref = "";
    steps = [];
    termination = none;
  }

  unfoldable pub build_from : Value → Build
  unfolding build_of
  build_from v = map_or no_build build_of v

  unfoldable pub build_history_from : Value → List Build
  unfolding build_from
  build_history_from v = map build_from (list_or_empty v)
