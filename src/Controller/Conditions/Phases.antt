-- ===== src/Controller/Conditions/Phases.antt =====
-- internal/controller/app_controller.go: the derived phase and the conditions, after `refreshPhase`
-- and after `fail`.
use toggle_web_baker.Common.{
  ℕ, ◌≡◌, refl, ◌≢◌, ap, ◌∙◌, sym, inl, inr, String, Bool, true, false, ◌||◌, str_eq, Bool-cases,
  arith,
}
use toggle_web_baker.Api.Status.{Phase, ConditionStatus, is_true, is_false, AppStatus}
use toggle_web_baker.Api.App.{
  App, condition_ready, condition_degraded, reason_ready, reason_building,
  reason_awaiting_first_build,
}
use toggle_web_baker.Controller.Conditions.{
  find_condition, set_condition, has_succeeded_once, is_complete, holds, phase_of, with_phase,
  refresh_to, refresh_phase, fail_status,
}
use toggle_web_baker.Controller.Conditions.Laws.{
  find-set_condition_other, set_condition-again, holds-set_condition,
}

-- The phase does not depend on the phase that is recorded, nor on Ready.
phase_of-set_condition :
    (now : ℕ) (app : App) (t reason msg : String) (status : ConditionStatus)
    → str_eq t condition_degraded ≡ false
    → phase_of (set_condition now app t status reason msg).status ≡ phase_of app.status
unfolding phase_of set_condition has_succeeded_once
phase_of-set_condition now app t reason msg status h =
    rw (find-set_condition_other now app t condition_degraded reason msg status h)

phase_of-refresh_to :
    (now : ℕ) (app : App) (p : Phase) → phase_of (refresh_to now app p).status ≡ phase_of app.status
unfolding refresh_to phase_of has_succeeded_once
phase_of-refresh_to now app Phase.ready =
    phase_of-set_condition now (with_phase app Phase.ready) condition_ready reason_ready
      "serving current release" is_true refl
phase_of-refresh_to now app Phase.building =
    phase_of-set_condition now (with_phase app Phase.building) condition_ready reason_building
      "build in progress" is_false refl
phase_of-refresh_to now app Phase.awaiting_first_build =
    phase_of-set_condition now (with_phase app Phase.awaiting_first_build) condition_ready
      reason_awaiting_first_build "awaiting first build" is_false refl
phase_of-refresh_to now app Phase.degraded = refl
phase_of-refresh_to now app Phase.unset = refl

-- A second refresh, at whatever time, leaves the status as the first one wrote it.
refresh_to-again :
    (now later : ℕ) (app : App) (p : Phase)
    → refresh_to later (refresh_to now app p) p ≡ refresh_to now app p
unfolding refresh_to set_condition
refresh_to-again now later app Phase.ready =
    set_condition-again now later (with_phase app Phase.ready) condition_ready reason_ready
      "serving current release" is_true
refresh_to-again now later app Phase.building =
    set_condition-again now later (with_phase app Phase.building) condition_ready reason_building
      "build in progress" is_false
refresh_to-again now later app Phase.awaiting_first_build =
    set_condition-again now later (with_phase app Phase.awaiting_first_build) condition_ready
      reason_awaiting_first_build "awaiting first build" is_false
refresh_to-again now later app Phase.degraded = refl
refresh_to-again now later app Phase.unset = refl

-- `refreshPhase` settles: run once more on the App it wrote, at any later time, it changes nothing,
-- neither the phase nor the time of Ready's last transition.
pub refresh_phase-again :
    (now later : ℕ) (app : App)
    → refresh_phase later (refresh_phase now app) ≡ refresh_phase now app
unfolding refresh_phase
refresh_phase-again now later app =
    ap (refresh_to later (refresh_phase now app))
      (phase_of-refresh_to now app (phase_of app.status))
    ∙ refresh_to-again now later app (phase_of app.status)

abbrev pub is_ready : Phase → Bool
is_ready Phase.ready = true
is_ready Phase.unset = false
is_ready Phase.awaiting_first_build = false
is_ready Phase.building = false
is_ready Phase.degraded = false

phase-refresh_to : (now : ℕ) (app : App) (p : Phase) → (refresh_to now app p).status.phase ≡ p
unfolding refresh_to set_condition
phase-refresh_to now app Phase.ready = refl
phase-refresh_to now app Phase.building = refl
phase-refresh_to now app Phase.awaiting_first_build = refl
phase-refresh_to now app Phase.degraded = refl
phase-refresh_to now app Phase.unset = refl

ready-refresh_to :
    (now : ℕ) (app : App) (p : Phase)
    → p ≢ Phase.degraded
    → p ≢ Phase.unset
    → holds (find_condition (refresh_to now app p).status.conditions condition_ready) ≡ is_ready p
unfolding refresh_to
ready-refresh_to now app Phase.ready d u =
    holds-set_condition now (with_phase app Phase.ready) condition_ready reason_ready
      "serving current release" is_true
ready-refresh_to now app Phase.building d u =
    holds-set_condition now (with_phase app Phase.building) condition_ready reason_building
      "build in progress" is_false
ready-refresh_to now app Phase.awaiting_first_build d u =
    holds-set_condition now (with_phase app Phase.awaiting_first_build) condition_ready
      reason_awaiting_first_build "awaiting first build" is_false
ready-refresh_to now app Phase.degraded d u = absurd (d refl)
ready-refresh_to now app Phase.unset d u = absurd (u refl)

pub phase_of-set : (s : AppStatus) → phase_of s ≢ Phase.unset
unfolding phase_of
phase_of-set s = ground arith

-- After `refreshPhase`, unless the App is degraded, Ready is true exactly where the recorded phase
-- is Ready.
pub refresh_phase-ready :
    (now : ℕ) (app : App)
    → phase_of app.status ≢ Phase.degraded
    → holds (find_condition (refresh_phase now app).status.conditions condition_ready)
      ≡ is_ready (refresh_phase now app).status.phase
unfolding refresh_phase
refresh_phase-ready now app d =
    ready-refresh_to now app (phase_of app.status) d (phase_of-set app.status)
    ∙ ap is_ready (sym (phase-refresh_to now app (phase_of app.status)))

-- A degraded App that has been built is degraded.
phase_of-degraded :
    (s : AppStatus)
    → has_succeeded_once s || is_complete s.build.phase ≡ true
    → holds (find_condition s.conditions condition_degraded) ≡ true
    → phase_of s ≡ Phase.degraded
unfolding phase_of
phase_of-degraded s h d = elim (Bool-cases (has_succeeded_once s)) [
  | inl y ↦ rw (y, d)
  | inr n ↦ let c : is_complete s.build.phase ≡ true = rw n at h in rw (n, c, d)
]

pub fail_status-Ready :
    (now : ℕ) (app : App) (reason msg : String)
    → holds (find_condition (fail_status now app reason msg).status.conditions condition_ready)
      ≡ false
unfolding fail_status
fail_status-Ready now app reason msg =
    ap holds (
      find-set_condition_other now (set_condition now app condition_ready is_false reason msg)
        condition_degraded condition_ready reason msg is_true refl)
    ∙ holds-set_condition now app condition_ready reason msg is_false

pub fail_status-Degraded :
    (now : ℕ) (app : App) (reason msg : String)
    → holds (find_condition (fail_status now app reason msg).status.conditions condition_degraded)
      ≡ true
unfolding fail_status
fail_status-Degraded now app reason msg =
    holds-set_condition now (set_condition now app condition_ready is_false reason msg)
      condition_degraded reason msg is_true

build_kept :
    (now : ℕ) (app : App) (reason msg : String)
    → has_succeeded_once (fail_status now app reason msg).status
        || is_complete (fail_status now app reason msg).status.build.phase
      ≡ has_succeeded_once app.status || is_complete app.status.build.phase
unfolding fail_status set_condition has_succeeded_once
build_kept now app reason msg = refl

-- For an App that was built with success before, or whose current build is complete: after what
-- `fail` records, Ready is false, Degraded is true, and a later `refreshPhase` derives the phase
-- Degraded again.
pub fail_status-degraded :
    (now later : ℕ) (app : App) (reason msg : String)
    → has_succeeded_once app.status || is_complete app.status.build.phase ≡ true
    → (holds (find_condition (fail_status now app reason msg).status.conditions condition_ready)
        ≡ false)
      × (holds
            (find_condition (fail_status now app reason msg).status.conditions condition_degraded)
          ≡ true)
      × ((refresh_phase later (fail_status now app reason msg)).status.phase ≡ Phase.degraded)
unfolding refresh_phase
fail_status-degraded now later app reason msg h = (
  fail_status-Ready now app reason msg,
  fail_status-Degraded now app reason msg,
  phase-refresh_to later (fail_status now app reason msg)
        (phase_of (fail_status now app reason msg).status)
      ∙ phase_of-degraded (fail_status now app reason msg).status
          (build_kept now app reason msg ∙ h) (fail_status-Degraded now app reason msg),
)

degraded-refresh_to :
    (now : ℕ) (app : App) (p : Phase)
    → holds (find_condition (refresh_to now app p).status.conditions condition_degraded)
      ≡ holds (find_condition app.status.conditions condition_degraded)
unfolding refresh_to
degraded-refresh_to now app Phase.ready = ap holds (
    find-set_condition_other now (with_phase app Phase.ready) condition_ready condition_degraded
      reason_ready "serving current release" is_true refl)
degraded-refresh_to now app Phase.building = ap holds (
    find-set_condition_other now (with_phase app Phase.building) condition_ready condition_degraded
      reason_building "build in progress" is_false refl)
degraded-refresh_to now app Phase.awaiting_first_build = ap holds (
    find-set_condition_other now (with_phase app Phase.awaiting_first_build) condition_ready
      condition_degraded reason_awaiting_first_build "awaiting first build" is_false refl)
degraded-refresh_to now app Phase.degraded = refl
degraded-refresh_to now app Phase.unset = refl

pub refresh_phase-Degraded :
    (now : ℕ) (app : App)
    → holds (find_condition (refresh_phase now app).status.conditions condition_degraded)
      ≡ holds (find_condition app.status.conditions condition_degraded)
unfolding refresh_phase
refresh_phase-Degraded now app = degraded-refresh_to now app (phase_of app.status)

pub phase_of-not_degraded :
    (s : AppStatus)
    → holds (find_condition s.conditions condition_degraded) ≡ false
    → phase_of s ≢ Phase.degraded
unfolding phase_of
phase_of-not_degraded s h = ground arith

pub refresh_phase-phase :
    (now : ℕ) (app : App) → (refresh_phase now app).status.phase ≡ phase_of app.status
unfolding refresh_phase
refresh_phase-phase now app = phase-refresh_to now app (phase_of app.status)
