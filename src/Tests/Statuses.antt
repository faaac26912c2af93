-- ===== src/Tests/Statuses.antt =====
-- internal/controller: conditions, histories and sizes at concrete inputs.
use toggle_web_baker.Common.{
  ◌+◌, ◌≡◌, refl, ◌⊎◌, true, false, List, [], ◌∷◌, All, if◌then◌else◌, arith,
}
use toggle_web_baker.Api.Status.{Phase, BuildResult, BuildTrigger, BuildStatus}
use toggle_web_baker.Api.App.{condition_ready, condition_degraded}
use toggle_web_baker.Controller.Conditions.{
  find_condition, holds, has_succeeded_once, refresh_phase, fail_status,
}
use toggle_web_baker.Controller.Conditions.Phases.{refresh_phase-again, fail_status-degraded}
use toggle_web_baker.Controller.History.{append_failed_build_history}
use toggle_web_baker.Controller.History.Rings.{
  IsRing, IsTrimmed, append_failed_build_history-IsRing,
}
use toggle_web_baker.Controller.History.Streak.{
  Builds, streak_from, has_success, scheduled_failures, since_success, streak_from-since_success,
}
use toggle_web_baker.Tests.Samples.{site, build_of}

refresh_phase-again_example : refresh_phase 9 (refresh_phase 7 site) ≡ refresh_phase 7 site
refresh_phase-again_example = refresh_phase-again 7 9 site

fail_status-degraded_example :
    (holds
        (find_condition (fail_status 7 site "InvalidSpec" "bad").status.conditions condition_ready)
      ≡ false)
    × (holds (
          find_condition
            (fail_status 7 site "InvalidSpec" "bad").status.conditions
            condition_degraded)
        ≡ true)
    × ((refresh_phase 9 (fail_status 7 site "InvalidSpec" "bad")).status.phase ≡ Phase.degraded)
unfolding has_succeeded_once
fail_status-degraded_example = fail_status-degraded 7 9 site "InvalidSpec" "bad" refl

-- A ring of two builds, and the builds that come to it.
abbrev two_builds : List BuildStatus
two_builds = build_of "b2" BuildResult.succeeded ∷ build_of "b1" BuildResult.failed ∷ []

two_builds-IsRing : IsRing 2 two_builds
two_builds-IsRing = record { distinct = ((refl, tt), (tt, tt)); capped = omega arith }

abbrev one_failed : List BuildStatus
one_failed = build_of "b1" BuildResult.failed ∷ []

one_failed-IsRing : IsRing 2 one_failed
one_failed-IsRing = record { distinct = (tt, tt); capped = omega arith }

append_failed_build_history-IsRing_example :
    IsRing 2 (append_failed_build_history one_failed (build_of "b3" BuildResult.failed) 2)
    × All IsTrimmed (append_failed_build_history one_failed (build_of "b3" BuildResult.failed) 2)
    × ((BuildResult.failed ≡ BuildResult.failed)
        ⊎ (append_failed_build_history one_failed (build_of "b3" BuildResult.failed) 2
            ≡ one_failed))
append_failed_build_history-IsRing_example =
    append_failed_build_history-IsRing one_failed (build_of "b3" BuildResult.failed) 2
      one_failed-IsRing (record { failed = refl; one_step = omega arith }, tt)

abbrev some_builds : Builds
some_builds =
    (BuildTrigger.scheduled, BuildResult.failed)
    ∷ (BuildTrigger.manual, BuildResult.succeeded)
    ∷ (BuildTrigger.unset, BuildResult.failed)
    ∷ []

streak_from-since_success_example :
    streak_from 4 some_builds
    ≡ (if has_success some_builds then 0 else 4) + scheduled_failures (since_success some_builds)
streak_from-since_success_example = streak_from-since_success 4 some_builds
