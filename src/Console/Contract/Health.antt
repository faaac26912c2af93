-- ===== src/Console/Contract/Health.antt =====
-- The health that the console shows, against the conditions and the phase that the operator records.
use toggle_web_baker.Common.{
  ℕ, String, Bool, true, false, ◌≡◌, refl, ap, sym, ◌∙◌, Option, none, some, List, [], ◌∷◌, map,
  Map, if◌then◌else◌, str_eq, first, Bool-cases, inl, inr, ◌&&◌, ◌≢◌,
}
use toggle_web_baker.Common.Int.{ℤ}
use toggle_web_baker.Common.Order.{first-sort}
use toggle_web_baker.Api.Status.{
  Phase, Condition, ConditionStatus, AppStatus, is_true, is_false, is_unknown,
}
use toggle_web_baker.Api.App.{App, condition_ready, condition_degraded}
use toggle_web_baker.Api.Json.{condition_text, phase_text}
use toggle_web_baker.Controller.Conditions.{
  find_condition, holds, same_status, refresh_phase, fail_status,
}
use toggle_web_baker.Controller.Conditions.Phases.{
  fail_status-Ready, fail_status-Degraded, is_ready, refresh_phase-ready, refresh_phase-Degraded,
  phase_of-not_degraded, refresh_phase-phase,
}
use toggle_web_baker.Console.Value.{Value}
use toggle_web_baker.Console.Model as Model
use toggle_web_baker.Console.Health as Health
use toggle_web_baker.Console.Contract.{shown_condition, shown_conditions, shown_status}

abbrev shown_condition_of : (ℕ → String) → Option Condition → Option Model.Condition
shown_condition_of format_time none = none
shown_condition_of format_time (some c) = some (shown_condition format_time c)

-- The health by what the operator records.
abbrev pub class_of : Bool → Bool → Phase → String
class_of true true p = "degraded-serving"
class_of true false p = "degraded"
class_of false true p = "ready"
class_of false false Phase.building = "building"
class_of false false Phase.unset = "pending"
class_of false false Phase.awaiting_first_build = "pending"
class_of false false Phase.ready = "pending"
class_of false false Phase.degraded = "pending"

by_flags : Bool → Bool → Bool → String
by_flags d r b =
    if d && r
    then "degraded-serving"
    else if d
    then "degraded"
    else if r
    then "ready"
    else if b
    then "building"
    else "pending"

by_flags-class_of :
    (d r : Bool) (p : Phase) → by_flags d r (str_eq (phase_text p) "Building") ≡ class_of d r p
unfolding by_flags
by_flags-class_of true true p = refl
by_flags-class_of true false p = refl
by_flags-class_of false true p = refl
by_flags-class_of false false Phase.building = refl
by_flags-class_of false false Phase.unset = refl
by_flags-class_of false false Phase.awaiting_first_build = refl
by_flags-class_of false false Phase.ready = refl
by_flags-class_of false false Phase.degraded = refl

-- What the console is to show of a phase.
abbrev pub health_of : Phase → String
health_of Phase.ready = "ready"
health_of Phase.building = "building"
health_of Phase.awaiting_first_build = "pending"
health_of Phase.degraded = "degraded"
health_of Phase.unset = "pending"

class_of-phase : (p : Phase) → p ≢ Phase.degraded → class_of false (is_ready p) p ≡ health_of p
class_of-phase Phase.ready d = refl
class_of-phase Phase.building d = refl
class_of-phase Phase.awaiting_first_build d = refl
class_of-phase Phase.unset d = refl
class_of-phase Phase.degraded d = absurd (d refl)

module _ (format_time : ℕ → String) where
  first-shown :
      (cs : List Condition) (t : String)
      → first (λ c. str_eq c.type_ t) (map (shown_condition format_time) cs)
        ≡ shown_condition_of format_time (find_condition cs t)
  unfolding find_condition
  first-shown [] t = refl
  first-shown (c ∷ cs) t = elim (Bool-cases (str_eq c.type_ t)) [
    | inl y ↦ rw y
    | inr n ↦ rw (n, first-shown cs t)
  ]

  is_true-condition_text :
      (s : ConditionStatus) → str_eq (condition_text s) "True" ≡ same_status s is_true
  is_true-condition_text is_true = refl
  is_true-condition_text is_false = refl
  is_true-condition_text is_unknown = refl

  holds-shown : (o : Option Condition) → Health.holds (shown_condition_of format_time o) ≡ holds o
  unfolding Health.is_true Health.holds
  holds-shown none = refl
  holds-shown (some c) = is_true-condition_text c.status

  module _ (one_decimal : ℕ → ℕ → String) (percent : ℤ → ℤ → ℤ) (spec : Option (Map Value))
      (a : Model.App) where
    abbrev pub view : AppStatus → Model.App
    view s = shown_status format_time one_decimal percent spec a s

    -- A condition of the view, by its type.
    holds-condition :
        (s : AppStatus) (t : String)
        → Health.holds (Health.condition (view s) t) ≡ holds (find_condition s.conditions t)
    unfolding Health.condition shown_conditions shown_status
    holds-condition s t =
        ap Health.holds (
          first-sort (λ c. c.type_) t (map (shown_condition format_time) s.conditions)
          ∙ first-shown s.conditions t)
        ∙ holds-shown (find_condition s.conditions t)

    degraded-shown :
        (s : AppStatus)
        → Health.degraded (view s) ≡ holds (find_condition s.conditions condition_degraded)
    unfolding Health.degraded
    degraded-shown s = holds-condition s condition_degraded

    ready-shown :
        (s : AppStatus)
        → Health.ready (view s) ≡ holds (find_condition s.conditions condition_ready)
    unfolding Health.ready
    ready-shown s = holds-condition s condition_ready

    -- The class that the console gives an App depends on the operator's record alone: on whether Degraded
    -- and Ready hold there, and, where neither does, on whether the phase is Building.
    pub health_class-recorded :
        (s : AppStatus)
        → Health.health_class (view s)
          ≡ class_of
              (holds (find_condition s.conditions condition_degraded))
              (holds (find_condition s.conditions condition_ready))
              s.phase
    unfolding Health.health_class by_flags shown_status
    health_class-recorded s =
        (λ i.
          by_flags (degraded-shown s i) (ready-shown s i) (str_eq (phase_text s.phase) "Building"))
        ∙ by_flags-class_of (holds (find_condition s.conditions condition_degraded))
            (holds (find_condition s.conditions condition_ready)) s.phase

    -- After the operator's `fail`, the console shows the App as degraded, and as serving nothing.
    pub health_class-fail_status :
        (now : ℕ) (app : App) (reason msg : String)
        → Health.health_class (view (fail_status now app reason msg).status) ≡ "degraded"
    health_class-fail_status now app reason msg =
        let s = (fail_status now app reason msg).status in
        health_class-recorded s ∙ (λ i.
          class_of (fail_status-Degraded now app reason msg i)
            (fail_status-Ready now app reason msg i) s.phase)

    -- After `refreshPhase` of an App that is not degraded, the console shows what the recorded phase
    -- says: ready for Ready, building for Building, and pending while the first build is awaited.
    pub health_class-refresh_phase :
        (now : ℕ) (app : App)
        → holds (find_condition app.status.conditions condition_degraded) ≡ false
        → Health.health_class (view (refresh_phase now app).status)
          ≡ health_of (refresh_phase now app).status.phase
    health_class-refresh_phase now app h =
        let s = (refresh_phase now app).status in
        let healthy = phase_of-not_degraded app.status h in
        let recorded = refresh_phase-phase now app in
        health_class-recorded s
        ∙ ((λ i.
              class_of ((refresh_phase-Degraded now app ∙ h) i)
                (refresh_phase-ready now app healthy i) s.phase)
            ∙ class_of-phase s.phase (λ e. healthy (sym recorded ∙ e)))
