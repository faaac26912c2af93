-- ===== src/Controller/History/Streak.antt =====
-- The streak of internal/controller/buildsteps.go over a whole history of builds.
use toggle_web_baker.Common.{
  ℕ, suc, ◌+◌, ◌≡◌, refl, Bool, true, false, List, [], ◌∷◌, if◌then◌else◌, arith, Bool-cases, inl,
  inr,
}
use toggle_web_baker.Api.Status.{BuildResult, BuildTrigger}
use toggle_web_baker.Controller.History.{counts_as_scheduled, update_consecutive_scheduled_failures}

-- The builds of an app in the order in which they ended.
abbrev pub Builds : Type 0
Builds = List (BuildTrigger × BuildResult)

abbrev pub streak_from : ℕ → Builds → ℕ
streak_from current [] = current
streak_from current ((trigger, result) ∷ builds) =
    streak_from (update_consecutive_scheduled_failures current trigger result) builds

-- Scheduled, or from a time when the trigger was not recorded; no other trigger.
abbrev pub is_scheduled : BuildTrigger → Bool
is_scheduled BuildTrigger.scheduled = true
is_scheduled BuildTrigger.unset = true
is_scheduled BuildTrigger.manual = false
is_scheduled BuildTrigger.spec_change = false
is_scheduled BuildTrigger.commit = false

-- The same triggers as the code's, one by one.
counts-is_scheduled : (t : BuildTrigger) → counts_as_scheduled t ≡ is_scheduled t
counts-is_scheduled BuildTrigger.scheduled = refl
counts-is_scheduled BuildTrigger.unset = refl
counts-is_scheduled BuildTrigger.manual = refl
counts-is_scheduled BuildTrigger.spec_change = refl
counts-is_scheduled BuildTrigger.commit = refl

-- The scheduled builds that failed.
abbrev pub scheduled_failures : Builds → ℕ
scheduled_failures [] = 0
scheduled_failures ((trigger, BuildResult.failed) ∷ builds) =
    let n = scheduled_failures builds in if is_scheduled trigger then suc n else n
scheduled_failures ((trigger, _) ∷ builds) = scheduled_failures builds

abbrev pub has_success : Builds → Bool
has_success [] = false
has_success ((trigger, BuildResult.succeeded) ∷ builds) = true
has_success ((trigger, _) ∷ builds) = has_success builds

abbrev pub is_success : BuildResult → Bool
is_success BuildResult.succeeded = true
is_success BuildResult.failed = false
is_success BuildResult.aborted = false
is_success BuildResult.unset = false

-- The builds after the last success, or all of them.
abbrev pub since_success : Builds → Builds
since_success [] = []
since_success (b ∷ builds) =
    let rest = since_success builds in
    if has_success builds then rest else if is_success b.1 then builds else b ∷ builds

streak_no_success :
    (current : ℕ) (builds : Builds)
    → has_success builds ≡ false
    → streak_from current builds ≡ current + scheduled_failures builds
unfolding update_consecutive_scheduled_failures
streak_no_success current [] h = omega arith
streak_no_success current ((trigger, BuildResult.succeeded) ∷ builds) h = cc
streak_no_success current ((trigger, BuildResult.unset) ∷ builds) h =
    streak_no_success current builds h
streak_no_success current ((trigger, BuildResult.aborted) ∷ builds) h =
    streak_no_success current builds h
streak_no_success current ((trigger, BuildResult.failed) ∷ builds) h = ground (
  arith,
  counts-is_scheduled trigger,
  streak_no_success current builds h,
  streak_no_success (current + 1) builds h,
)

-- The streak after any builds is the number of failed builds since the last success of any kind whose
-- trigger is Scheduled or was not recorded; with no success so far they come on top of the count that
-- was there.
pub streak_from-since_success :
    (current : ℕ) (builds : Builds)
    → streak_from current builds
      ≡ (if has_success builds then 0 else current) + scheduled_failures (since_success builds)
unfolding update_consecutive_scheduled_failures
streak_from-since_success current [] = omega arith
streak_from-since_success current ((trigger, result) ∷ builds) =
    elim (Bool-cases (has_success builds)) [
      | inl y ↦
          rw
            (streak_from-since_success
              (update_consecutive_scheduled_failures current trigger result) builds)
            (before result y)
      | inr n ↦
          rw
            (streak_no_success (update_consecutive_scheduled_failures current trigger result) builds
              n)
            (last result n)
    ]
  where
    before :
        (result : BuildResult)
        → has_success builds ≡ true
        → (if has_success builds
              then 0
              else update_consecutive_scheduled_failures current trigger result)
            + scheduled_failures (since_success builds)
          ≡ (if has_success ((trigger, result) ∷ builds) then 0 else current)
            + scheduled_failures (since_success ((trigger, result) ∷ builds))
    before BuildResult.succeeded y = rw y refl
    before BuildResult.failed y = rw y refl
    before BuildResult.aborted y = rw y refl
    before BuildResult.unset y = rw y refl

    last :
        (result : BuildResult)
        → has_success builds ≡ false
        → update_consecutive_scheduled_failures current trigger result + scheduled_failures builds
          ≡ (if has_success ((trigger, result) ∷ builds) then 0 else current)
            + scheduled_failures (since_success ((trigger, result) ∷ builds))
    last BuildResult.succeeded n = rw n refl
    last BuildResult.failed n = rw n (ground (arith, counts-is_scheduled trigger))
    last BuildResult.aborted n = rw n refl
    last BuildResult.unset n = rw n refl
