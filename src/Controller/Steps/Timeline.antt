-- ===== src/Controller/Steps/Timeline.antt =====
-- What the timeline of internal/controller/buildsteps.go says of a build.
use toggle_web_baker.Common.{
  ℕ, ◌≡◌, refl, ap, sym, ◌∙◌, ◌⊎◌, ◌↔◌, inl, inr, String, Bool, true, false, Option, none, some,
  List, [], ◌∷◌, ◌++◌, if◌then◌else◌, str_eq, eq_iff, str_cases, map, keep, In, first-In,
  In-append_left, In-append_right, All, arith, Bool-cases, is_some,
}
use toggle_web_baker.Common.Int.{pos, eqb_ℤ→eq}
use toggle_web_baker.Api.Spec.{AppSpec}
use toggle_web_baker.Api.Status.{StepStatus, BuildStep}
use toggle_web_baker.Api.App.{
  step_clone, step_setup, step_fetch, step_build, step_copier, step_release,
}
use toggle_web_baker.Cluster.{ContainerStatus, Pod, Terminated}
use toggle_web_baker.Controller.Steps.{
  phase_configured, setup_runs, effective_setup, applicable_steps, container_step_status,
  state_status, find_container_status, container_step, with_peak, main_step, init_step, derive_step,
  derive_build_steps, pending_step, is_failing, failed_step,
}

-- The whole pipeline, and whether an app runs a step of it.
abbrev pub pipeline : List String
pipeline = step_clone ∷ step_setup ∷ step_fetch ∷ step_build ∷ step_copier ∷ step_release ∷ []

abbrev pub runs : AppSpec → String → Bool
runs spec name =
    if str_eq name step_setup
    then is_some (effective_setup (λ pm. []) spec)
    else if str_eq name step_fetch
    then phase_configured spec.pipeline.phases.fetch.phase
    else true

effective_setup-setup_runs :
    (default_setup_command : String → List String) (spec : AppSpec)
    → is_some (effective_setup default_setup_command spec) ≡ setup_runs spec
unfolding effective_setup
effective_setup-setup_runs d spec = elim (Bool-cases (setup_runs spec)) [
  | inl e ↦ elim (Bool-cases (phase_configured spec.pipeline.phases.setup.phase)) [
    | inl c ↦ rw (e, c) refl
    | inr c ↦ rw (e, c) refl
  ]
  | inr e ↦ rw e refl
]

-- The steps shown for an app are the steps of the pipeline that it runs, in the pipeline's order:
-- setup exactly where the build pod has a setup container, fetch exactly where it is configured.
pub applicable_steps-pipeline : (spec : AppSpec) → applicable_steps spec ≡ keep (runs spec) pipeline
unfolding applicable_steps
applicable_steps-pipeline spec = rw (effective_setup-setup_runs (λ pm. []) spec) (ground arith)

pub derive_step-name :
    (name : String) (pod : Option Pod) (release_done : Bool)
    → (derive_step name pod release_done).name ≡ name
unfolding derive_step main_step init_step
derive_step-name name pod release_done = ground arith

-- The timeline has one step for each name that it is asked for, in that order, whatever the pod.
pub derive_build_steps-names :
    (applicable : List String) (pod : Option Pod) (release_done : Bool)
    → map (λ s. s.name) (derive_build_steps applicable pod release_done) ≡ applicable
unfolding derive_build_steps
derive_build_steps-names [] pod release_done = refl
derive_build_steps-names (name ∷ names) pod release_done =
    cc (derive_step-name name pod release_done, derive_build_steps-names names pod release_done)

-- The record of a container that ran: one that is running or has terminated.
ran-of-succeeded :
    (cs : Option ContainerStatus)
    → container_step_status cs ≡ StepStatus.succeeded
    → (c : ContainerStatus) × (cs ≡ some c)
      × (t : Terminated) × (c.terminated ≡ some t)
      × (t.exit_code ≡ pos 0)
unfolding container_step_status
ran-of-succeeded none h = cc
ran-of-succeeded (some c) h = go c.terminated c.running refl h
  where
    go :
        (terminated : Option Terminated) (running : Option ℕ)
        → c.terminated ≡ terminated
        → state_status terminated running ≡ StepStatus.succeeded
        → (c' : ContainerStatus) × (some c ≡ some c')
          × (t : Terminated) × (c'.terminated ≡ some t)
          × (t.exit_code ≡ pos 0)
    go (some t) running e h = (c, refl, t, e, eqb_ℤ→eq _ _ (ground arith))
    go none (some s) e h = cc
    go none none e h = cc

container_step-status :
    (p : Pod) (name : String) (cs : Option ContainerStatus)
    → (container_step p name cs).status ≡ container_step_status cs
unfolding container_step
container_step-status p name none = refl
container_step-status p name (some c) = ground arith

with_peak-status :
    (cs : Option ContainerStatus) (step : BuildStep) → (with_peak cs step).status ≡ step.status
with_peak-status cs step = ground arith

-- The pod has a container of that name which terminated with exit code 0.
abbrev pub Exited : Pod → String → Type 0
Exited p name =
    (c : ContainerStatus) × In c (p.init_container_statuses ++ p.container_statuses)
    × (c.name ≡ name)
    × (t : Terminated) × (c.terminated ≡ some t)
    × (t.exit_code ≡ pos 0)

Exited-of :
    (p : Pod) (name : String) (statuses : List ContainerStatus)
    → ((c : ContainerStatus)
        → In c statuses
        → In c (p.init_container_statuses ++ p.container_statuses))
    → container_step_status (find_container_status statuses name) ≡ StepStatus.succeeded
    → Exited p name
unfolding find_container_status
Exited-of p name statuses inside h =
    let (c, e, t, s, z) = ran-of-succeeded (find_container_status statuses name) h in
    let (i, q) = first-In (λ cs. str_eq cs.name name) statuses c e in
    (c, inside c i, (eq_iff c.name name).0 q, t, s, z)

main_step-status :
    (p : Pod) (name : String)
    → (main_step p name).status
      ≡ container_step_status (find_container_status p.container_statuses name)
unfolding main_step
main_step-status p name =
    container_step-status p name (find_container_status p.container_statuses name)

init_step-status :
    (p : Pod) (name : String)
    → (init_step p name).status
      ≡ container_step_status (find_container_status p.init_container_statuses name)
unfolding init_step
init_step-status p name =
    let cs = find_container_status p.init_container_statuses name in
    with_peak-status cs (container_step p name cs) ∙ container_step-status p name cs

derive_step-Exited :
    (name : String) (p : Pod) (release_done : Bool)
    → str_eq name step_release ≡ false
    → (derive_step name (some p) release_done).status ≡ StepStatus.succeeded
    → Exited p name
unfolding derive_step
derive_step-Exited name p release_done n h = elim (Bool-cases (str_eq name step_copier)) [
  | inl e ↦
      Exited-of p name p.container_statuses (λ c i. In-append_right p.init_container_statuses i)
        (sym (main_step-status p name) ∙ (rw (n, e) at h))
  | inr e ↦
      Exited-of p name p.init_container_statuses (λ c i. In-append_left p.container_statuses i)
        (sym (init_step-status p name) ∙ (rw (n, e) at h))
]

-- A step says that it succeeded only on evidence: the release step because the build did, and any
-- other because the pod has a container of its name that terminated with exit code 0.
pub derive_step-succeeded :
    (name : String) (pod : Option Pod) (release_done : Bool)
    → (derive_step name pod release_done).status ≡ StepStatus.succeeded
    → ((name ≡ step_release) × (release_done ≡ true)) ⊎ ((p : Pod) × (pod ≡ some p) × Exited p name)
derive_step-succeeded name none release_done h =
    unfold derive_step in ground (arith, eq_iff name step_release)
derive_step-succeeded name (some p) release_done h = elim (str_cases name step_release) [
  | inl e ↦ inl (e, unfold derive_step in ground (arith, eq_iff name step_release))
  | inr n ↦ inr (p, refl, derive_step-Exited name p release_done n h)
]

container_step_pending :
    (p : Pod) (name : String) (cs : Option ContainerStatus)
    → container_step_status cs ≡ StepStatus.pending
    → (container_step p name cs ≡ pending_step name)
      × (with_peak cs (container_step p name cs) ≡ pending_step name)
unfolding container_step
container_step_pending p name none h = (refl, refl)
container_step_pending p name (some c) h = (ground arith, ground arith)

main_step_pending :
    (p : Pod) (name : String)
    → (main_step p name).status ≡ StepStatus.pending
    → main_step p name ≡ pending_step name
unfolding main_step
main_step_pending p name h =
    (container_step_pending p name (find_container_status p.container_statuses name)
      (sym (main_step-status p name) ∙ h)).0

init_step_pending :
    (p : Pod) (name : String)
    → (init_step p name).status ≡ StepStatus.pending
    → init_step p name ≡ pending_step name
unfolding init_step
init_step_pending p name h =
    (container_step_pending p name (find_container_status p.init_container_statuses name)
      (sym (init_step-status p name) ∙ h)).1

-- A step that is pending carries no fact of a run: no limit, no times, no peak, no message.
pub derive_step_pending :
    (name : String) (pod : Option Pod) (release_done : Bool)
    → (derive_step name pod release_done).status ≡ StepStatus.pending
    → derive_step name pod release_done ≡ pending_step name
unfolding derive_step
derive_step_pending name none release_done h = ground arith
derive_step_pending name (some p) release_done h =
    ground (arith, main_step_pending p name, init_step_pending p name)

abbrev pub IsFailing : BuildStep → Type 0
IsFailing s = (s.status ≡ StepStatus.failed) ⊎ (s.status ≡ StepStatus.aborted)

-- No step of these failed or was aborted.
abbrev pub NoneFailing : List BuildStep → Type 0
NoneFailing = All (λ s. ¬ IsFailing s)

is_failing_iff : (s : BuildStep) → (is_failing s.status ≡ true) ↔ IsFailing s
is_failing_iff s = ground arith

-- The failed step is the first that failed or was aborted: it is empty where no step did, and
-- otherwise the name of a step before which none did.
pub failed_step_first :
    (steps : List BuildStep)
    → (NoneFailing steps × (failed_step steps ≡ ""))
      ⊎ ((before : List BuildStep) × (s : BuildStep) × (rest : List BuildStep) × (steps
            ≡ before ++ s ∷ rest)
          × NoneFailing before
          × IsFailing s
          × (failed_step steps ≡ s.name))
unfolding failed_step
failed_step_first [] = inl (tt, refl)
failed_step_first (s ∷ steps) = elim (Bool-cases (is_failing s.status)) [
  | inl y ↦ inr ([], s, steps, refl, tt, (is_failing_iff s).0 y, rw y refl)
  | inr n ↦ elim (failed_step_first steps) [
    | inl (all_well, e) ↦ inl ((well_here n, all_well), rw n e)
    | inr (before, f, rest, e, well, failing, g) ↦
        inr (s ∷ before, f, rest, ap (◌∷◌ s) e, (well_here n, well), failing, rw n g)
  ]
]
  where
    well_here : is_failing s.status ≡ false → ¬ IsFailing s
    well_here n f = cc (n, (is_failing_iff s).1 f)
