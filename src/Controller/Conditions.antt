-- ===== src/Controller/Conditions.antt =====
-- internal/controller/app_controller.go: conditions and the phase derived from them. `now` is the
-- reading of the reconciler's clock.
pub mod Laws
pub mod Phases
use toggle_web_baker.Common.{
  ℕ, String, Bool, true, false, not, ◌&&◌, ◌||◌, Option, none, some, List, [], ◌∷◌, ◌++◌,
  if◌then◌else◌, str_eq, first, is_some,
}
use toggle_web_baker.Api.Status.{
  Phase, BuildPhase, Condition, ConditionStatus, is_true, is_false, is_unknown, AppStatus,
}
use toggle_web_baker.Api.App.{
  App, condition_ready, condition_degraded, reason_ready, reason_building,
  reason_awaiting_first_build,
}

unfoldable pub find_condition : List Condition → String → Option Condition
find_condition conditions t = first (λ c. str_eq c.type_ t) conditions

abbrev pub same_status : ConditionStatus → ConditionStatus → Bool
same_status is_true is_true = true
same_status is_false is_false = true
same_status is_unknown is_unknown = true
same_status _ _ = false

-- The condition written over an existing one keeps the time of a transition that did not happen.
unfoldable pub over_existing : Condition → Condition → Condition
over_existing cond existing =
    if same_status existing.status cond.status && str_eq existing.reason cond.reason
    then record cond { last_transition_time = existing.last_transition_time }
    else cond

-- The first condition of this type is overwritten; where there is none, one is appended.
unfoldable pub put_condition : List Condition → Condition → List Condition
put_condition [] cond = cond ∷ []
put_condition (c ∷ cs) cond =
    let rest = c ∷ put_condition cs cond in
    if str_eq c.type_ cond.type_ then over_existing cond c ∷ cs else rest

unfoldable pub set_condition : ℕ → App → String → ConditionStatus → String → String → App
set_condition now app t status reason msg = record app {
  status = record app.status {
    conditions = put_condition app.status.conditions (record {
      type_ = t;
      status = status;
      reason = reason;
      message = msg;
      last_transition_time = now;
      observed_generation = app.generation;
    });
  };
}

unfoldable pub has_succeeded_once : AppStatus → Bool
has_succeeded_once s =
    is_some s.last_successful_build_time || not (str_eq s.last_built_spec_hash "")

abbrev pub is_complete : BuildPhase → Bool
is_complete BuildPhase.complete = true
is_complete BuildPhase.unset = false
is_complete BuildPhase.pending = false
is_complete BuildPhase.running = false

abbrev pub is_running : BuildPhase → Bool
is_running BuildPhase.running = true
is_running BuildPhase.unset = false
is_running BuildPhase.pending = false
is_running BuildPhase.complete = false

abbrev pub is_pending : BuildPhase → Bool
is_pending BuildPhase.pending = true
is_pending BuildPhase.unset = false
is_pending BuildPhase.running = false
is_pending BuildPhase.complete = false

abbrev pub holds : Option Condition → Bool
holds none = false
holds (some c) = same_status c.status is_true

unfoldable pub phase_of : AppStatus → Phase
unfolding has_succeeded_once
phase_of s =
    if not (has_succeeded_once s) && not (is_complete s.build.phase)
    then (if is_running s.build.phase || is_pending s.build.phase
        then Phase.building
        else Phase.awaiting_first_build)
    else if holds (find_condition s.conditions condition_degraded)
    then Phase.degraded
    else if is_running s.build.phase
    then Phase.building
    else Phase.ready

abbrev pub with_phase : App → Phase → App
with_phase app phase = record app { status = record app.status { phase = phase } }

-- The `switch` of `refreshPhase`.
unfoldable pub refresh_to : ℕ → App → Phase → App
unfolding set_condition
refresh_to now app Phase.ready =
    set_condition now (with_phase app Phase.ready) condition_ready is_true reason_ready
      "serving current release"
refresh_to now app Phase.building =
    set_condition now (with_phase app Phase.building) condition_ready is_false reason_building
      "build in progress"
refresh_to now app Phase.awaiting_first_build =
    set_condition now (with_phase app Phase.awaiting_first_build) condition_ready is_false
      reason_awaiting_first_build "awaiting first build"
refresh_to now app Phase.degraded = with_phase app Phase.degraded
refresh_to now app Phase.unset = with_phase app Phase.unset

unfoldable pub refresh_phase : ℕ → App → App
unfolding refresh_to phase_of
refresh_phase now app = refresh_to now app (phase_of app.status)

-- What `fail` writes into the status before it is persisted.
unfoldable pub fail_status : ℕ → App → String → String → App
unfolding set_condition
fail_status now app reason msg =
    let unready = set_condition now app condition_ready is_false reason msg in
    let degraded = set_condition now unready condition_degraded is_true reason msg in
    with_phase degraded Phase.degraded
