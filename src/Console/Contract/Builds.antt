-- ===== src/Console/Contract/Builds.antt =====
-- Reading back a build, as it stands in status.build and in the history.
use toggle_web_baker.Common.{ℕ, String, ◌≡◌, refl, ap, ◌∙◌, Option, none, some, List, map}
use toggle_web_baker.Api.Status.{Condition, BuildStep, BuildTermination, BuildStatus}
use toggle_web_baker.Api.Json.{
  condition_fields, step_fields, encode_step, termination_fields, encode_termination,
  omit_termination, build_fields, encode_build, condition_text, step_text, build_phase_text,
  result_text, trigger_text,
}
use toggle_web_baker.Api.Json.Fields.{present, omit_empty}
use toggle_web_baker.Console.Value.{entries, or_nil}
use toggle_web_baker.Console.From.{
  peak_memory, condition_of, each_map, termination_of, termination_from, step_of, steps_from,
  build_of, build_from,
}
use toggle_web_baker.Console.Contract.{
  shown_condition, shown_termination, shown_termination_of, shown_step, shown_build,
}
use toggle_web_baker.Console.Contract.Reading.{
  list_or_empty-omit_empty, each_map-map, at_field, text_field, given_text, time_field, int_field,
  nat_field, map_cong,
}

module _ (format_time : ℕ → String) where
  pub condition_of-written :
      (c : Condition)
      → condition_of (entries (present (condition_fields format_time c)))
        ≡ shown_condition format_time c
  unfolding condition_of
  condition_of-written c =
      let fs = condition_fields format_time c in
      λ i. record {
        type_ = given_text fs refl "type" (c.type_) refl i;
        status = given_text fs refl "status" (condition_text c.status) refl i;
        reason = given_text fs refl "reason" (c.reason) refl i;
        message = given_text fs refl "message" (c.message) refl i;
        last_transition_time =
            given_text fs refl "lastTransitionTime" (format_time c.last_transition_time) refl i;
      }

  termination_of-written :
      (t : BuildTermination)
      → termination_of (entries (present (termination_fields format_time t)))
        ≡ shown_termination format_time t
  unfolding termination_of
  termination_of-written t =
      let fs = termination_fields format_time t in
      λ i. record {
        reason = text_field fs refl "reason" (t.reason) refl i;
        container = text_field fs refl "container" (t.container) refl i;
        memory_limit = text_field fs refl "memoryLimit" (t.memory_limit) refl i;
        finished_at = time_field fs refl "finishedAt" format_time (t.finished_at) refl i;
        exit_code = int_field fs refl "exitCode" (t.exit_code) refl i;
      }

  termination_from-omit_termination :
      (t : Option BuildTermination)
      → termination_from (or_nil (omit_termination format_time t))
        ≡ shown_termination_of format_time t
  unfolding termination_from encode_termination
  termination_from-omit_termination none = refl
  termination_from-omit_termination (some t) = ap some (termination_of-written t)

  module _ (one_decimal : ℕ → ℕ → String) where
    step_of-written :
        (s : BuildStep)
        → step_of one_decimal (entries (present (step_fields format_time s)))
          ≡ shown_step format_time one_decimal s
    unfolding step_of peak_memory
    step_of-written s =
        let fs = step_fields format_time s in
        λ i. record {
          name = given_text fs refl "name" (s.name) refl i;
          status = given_text fs refl "status" (step_text s.status) refl i;
          message = text_field fs refl "message" (s.message) refl i;
          peak_memory =
              peak_memory one_decimal
                (nat_field fs refl "peakMemoryBytes" (s.peak_memory_bytes) refl i);
          memory_limit = text_field fs refl "memoryLimit" (s.memory_limit) refl i;
          started_at = time_field fs refl "startedAt" format_time (s.started_at) refl i;
          finished_at = time_field fs refl "finishedAt" format_time (s.finished_at) refl i;
        }

    steps_from-written :
        (steps : List BuildStep)
        → steps_from one_decimal (or_nil (omit_empty (map (encode_step format_time) steps)))
          ≡ map (shown_step format_time one_decimal) steps
    unfolding steps_from encode_step
    steps_from-written steps =
        ap (each_map (step_of one_decimal))
          (list_or_empty-omit_empty (map (encode_step format_time) steps))
        ∙ (each_map-map (step_of one_decimal) (encode_step format_time)
              (λ s. entries (present (step_fields format_time s))) (λ s. refl) steps
            ∙ map_cong step_of-written steps)

    build_of-written :
        (b : BuildStatus)
        → build_of one_decimal (entries (present (build_fields format_time b)))
          ≡ shown_build format_time one_decimal b
    unfolding build_of
    build_of-written b =
        let fs = build_fields format_time b in
        λ i. record {
          phase = text_field fs refl "phase" (build_phase_text b.phase) refl i;
          result = text_field fs refl "result" (result_text b.result) refl i;
          job_name = text_field fs refl "jobName" (b.job_name) refl i;
          pod_name = text_field fs refl "podName" (b.pod_name) refl i;
          trigger = text_field fs refl "trigger" (trigger_text b.trigger) refl i;
          triggered_by = text_field fs refl "triggeredBy" (b.triggered_by) refl i;
          commit = text_field fs refl "commit" (b.commit) refl i;
          start_time = time_field fs refl "startTime" format_time (b.start_time) refl i;
          completion_time =
              time_field fs refl "completionTime" format_time (b.completion_time) refl i;
          attempts = nat_field fs refl "attempts" (b.attempts) refl i;
          failed_step = text_field fs refl "failedStep" (b.failed_step) refl i;
          message = text_field fs refl "message" (b.message) refl i;
          logs_ref = text_field fs refl "logsRef" (b.logs_ref) refl i;
          steps =
              (ap (steps_from one_decimal) (at_field fs refl "steps") ∙ steps_from-written b.steps)
                i;
          termination =
              (ap termination_from (at_field fs refl "termination")
                  ∙ termination_from-omit_termination b.termination)
                i;
        }

    -- The console shows a build as the operator recorded it, whatever it has left out of the object: each
    -- field under its own name, each step with its peak memory in units, and no termination where there
    -- is none.
    pub build_from-encode_build :
        (b : BuildStatus)
        → build_from one_decimal (encode_build format_time b)
          ≡ shown_build format_time one_decimal b
    unfolding build_from encode_build
    build_from-encode_build b = build_of-written b
