-- ===== src/Controller/History.antt =====
-- internal/controller/buildsteps.go: the build histories and the streak of failed scheduled builds.
-- The caps are at least 0, as the configuration and the CRD require.
pub mod Rings
pub mod Streak
use toggle_web_baker.Common.{
  ℕ, suc, ◌+◌, String, Bool, true, false, ◌||◌, Option, none, some, List, [], ◌∷◌, if◌then◌else◌,
  str_eq, any, first, take,
}
use toggle_web_baker.Api.Status.{BuildStatus, BuildStep, BuildResult, BuildTrigger}
use toggle_web_baker.Controller.Steps.{failed_step}

-- The record with this job's name, replaced where it stands.
abbrev pub replace : BuildStatus → List BuildStatus → List BuildStatus
replace rec [] = []
replace rec (h ∷ history) =
    let kept = h ∷ replace rec history in
    if str_eq h.job_name rec.job_name then rec ∷ history else kept

unfoldable pub append_build_history : List BuildStatus → BuildStatus → ℕ → List BuildStatus
append_build_history history rec max =
    if any (λ h. str_eq h.job_name rec.job_name) history
    then replace rec history
    else take max (rec ∷ history)

abbrev pub one_or_none : Option BuildStep → List BuildStep
one_or_none none = []
one_or_none (some s) = s ∷ []

unfoldable pub trim_to_failed_step : BuildStatus → BuildStatus
trim_to_failed_step rec =
    let want = if str_eq rec.failed_step "" then failed_step rec.steps else rec.failed_step in
    record rec { steps = one_or_none (first (λ s. str_eq s.name want) rec.steps) }

abbrev pub is_failed : BuildResult → Bool
is_failed BuildResult.failed = true
is_failed BuildResult.unset = false
is_failed BuildResult.succeeded = false
is_failed BuildResult.aborted = false

unfoldable pub append_failed_build_history : List BuildStatus → BuildStatus → ℕ → List BuildStatus
unfolding append_build_history trim_to_failed_step
append_failed_build_history history rec max =
    if is_failed rec.result
    then append_build_history history (trim_to_failed_step rec) max
    else history

-- An empty trigger counts as scheduled.
abbrev pub counts_as_scheduled : BuildTrigger → Bool
counts_as_scheduled BuildTrigger.scheduled = true
counts_as_scheduled BuildTrigger.unset = true
counts_as_scheduled BuildTrigger.manual = false
counts_as_scheduled BuildTrigger.spec_change = false
counts_as_scheduled BuildTrigger.commit = false

unfoldable pub update_consecutive_scheduled_failures : ℕ → BuildTrigger → BuildResult → ℕ
update_consecutive_scheduled_failures current trigger BuildResult.succeeded = 0
update_consecutive_scheduled_failures current trigger BuildResult.failed =
    if counts_as_scheduled trigger then current + 1 else current
update_consecutive_scheduled_failures current trigger BuildResult.aborted = current
update_consecutive_scheduled_failures current trigger BuildResult.unset = current
