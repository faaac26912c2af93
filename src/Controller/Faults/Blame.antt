-- ===== src/Controller/Faults/Blame.antt =====
-- internal/controller/platformfault.go and termination.go: the blame, and the failed step.
use toggle_web_baker.Common.{
  ◌≡◌, refl, ◌≢◌, ◌↔◌, ◌⊎◌, inl, inr, ap, ◌∙◌, String, true, Option, none, some, List, [], ◌∷◌,
  str_eq, eq_iff, arith, Bool-cases, Option-cases, str_cases, sym,
}
use mathlib.Core.Option.{some-injective, none-ne-some}
use toggle_web_baker.Api.Status.{BuildStep, BuildTermination}
use toggle_web_baker.Api.App.{
  reason_config_error, reason_oom_killed, reason_build_failed, step_copier, step_release,
  step_clone, step_setup, step_fetch, step_build,
}
use toggle_web_baker.Cluster.{Pod, ContainerStatus}
use toggle_web_baker.Controller.Steps.{failed_step, is_failing}
use toggle_web_baker.Controller.Faults.{
  is_platform_fault, detect_termination, stamp_step_message, terminated_in,
}

-- The steps that run the user's repository, commands and limits.
abbrev pub IsUserStep : String → Type 0
IsUserStep s = (s ≡ step_clone) ⊎ (s ≡ step_setup) ⊎ (s ≡ step_fetch) ⊎ (s ≡ step_build)

not_both : (reason : String) → ¬ ((reason ≡ reason_oom_killed) × (reason ≡ reason_build_failed))
not_both reason h =
    let same = (eq_iff reason_oom_killed reason_build_failed).1 (sym h.0 ∙ h.1) in cc

-- A failure is the platform's fault exactly where the configuration is wrong, the copier ran out of
-- memory, or the build failed outside of the user's steps.
pub is_platform_fault_iff :
    (reason failed : String)
    → (is_platform_fault reason failed ≡ true) ↔ (
        (reason ≡ reason_config_error)
        ⊎ ((reason ≡ reason_oom_killed) × (failed ≡ step_copier))
        ⊎ ((reason ≡ reason_build_failed) × ¬ IsUserStep failed))
unfolding is_platform_fault
is_platform_fault_iff reason failed = ground (
  arith,
  not_both reason,
  eq_iff reason reason_config_error,
  eq_iff reason reason_oom_killed,
  eq_iff reason reason_build_failed,
  eq_iff failed step_copier,
  eq_iff failed step_clone,
  eq_iff failed step_setup,
  eq_iff failed step_fetch,
  eq_iff failed step_build,
)

terminated_in-container :
    (pod : Pod) (name : String) (cs : Option ContainerStatus) (t : BuildTermination)
    → terminated_in pod name cs ≡ some t
    → t.container ≡ name
terminated_in-container pod name none t h = cc
terminated_in-container pod name (some cs) t h = elim (Option-cases cs.terminated) [
  | inl e ↦ absurd (none-ne-some _ (rw e at h))
  | inr (u, e) ↦ ap BuildTermination.container (sym (some-injective _ _ (rw e at h)))
]

-- The termination that is recorded names the failed step, which is neither empty nor the synthetic
-- release step.
pub detect_termination-container :
    (pod : Option Pod) (name : String) (t : BuildTermination)
    → detect_termination pod name ≡ some t
    → (t.container ≡ name) × (name ≢ "") × (name ≢ step_release)
unfolding detect_termination
detect_termination-container none name t h = cc
detect_termination-container (some pod) name t h = elim (str_cases name "") [
  | inl e ↦ absurd (none-ne-some _ (rw ((eq_iff name "").1 e) at h))
  | inr n ↦ elim (str_cases name step_release) [
    | inl e ↦ absurd (none-ne-some _ (rw (n, (eq_iff name step_release).1 e) at h))
    | inr m ↦ (
      terminated_in-container pod name _ t (rw (n, m) at h),
      ground (arith, eq_iff name ""),
      ground (arith, eq_iff name step_release),
    )
  ]
]

-- Stamping a message on a step does not change which step is the failed one.
pub failed_step-stamp_step_message :
    (steps : List BuildStep) (name msg : String)
    → failed_step (stamp_step_message steps name msg) ≡ failed_step steps
unfolding failed_step stamp_step_message
failed_step-stamp_step_message [] name msg = refl
failed_step-stamp_step_message (s ∷ steps) name msg = elim (Bool-cases (str_eq s.name name)) [
  | inl y ↦ elim (Bool-cases (is_failing s.status)) [ inl z ↦ rw (y, z) | inr m ↦ rw (y, m) ]
  | inr n ↦ elim (Bool-cases (is_failing s.status)) [
    | inl y ↦ rw (n, y)
    | inr m ↦ rw (n, m, failed_step-stamp_step_message steps name msg)
  ]
]
