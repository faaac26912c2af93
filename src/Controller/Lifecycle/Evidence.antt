-- ===== src/Controller/Lifecycle/Evidence.antt =====
-- internal/controller/app_controller.go: the evidence for the steps of the timelines that `observeBuild`
-- writes.
use toggle_web_baker.Common.{
  ◌≡◌, refl, sym, ◌∙◌, ◌⊎◌, inl, inr, String, Bool, true, false, Option, none, some, List, [], ◌∷◌,
  In, In-cons, map, subst, All, All-of, All-in, Bool-cases,
}
use mathlib.Core.Option.{some-injective}
use toggle_web_baker.Api.Status.{BuildResult, BuildStep, StepStatus}
use toggle_web_baker.Api.App.{App, step_release}
use toggle_web_baker.Cluster.{Pod}
use toggle_web_baker.Controller.Steps.{
  applicable_steps, derive_step, derive_build_steps, all_succeeded,
}
use toggle_web_baker.Controller.Steps.Timeline.{Exited, derive_step-name, derive_step-succeeded}
use toggle_web_baker.Controller.Lifecycle.{is_success, final_steps, in_flight, with_pod}

is_success-succeeded : (r : BuildResult) → is_success r ≡ true → r ≡ BuildResult.succeeded
is_success-succeeded BuildResult.succeeded h = refl
is_success-succeeded BuildResult.unset h = cc h
is_success-succeeded BuildResult.failed h = cc h
is_success-succeeded BuildResult.aborted h = cc h

-- The step, if it says that it succeeded, is borne out by its container, which terminated with exit
-- code 0, or by the result of the build, and then it is the release step or the pod is gone.
abbrev pub Evidenced : Option Pod → BuildResult → BuildStep → Type 0
Evidenced pod result s =
    s.status ≡ StepStatus.succeeded
    → ((p : Pod) × (pod ≡ some p) × Exited p s.name)
      ⊎ ((result ≡ BuildResult.succeeded) × ((s.name ≡ step_release) ⊎ (pod ≡ none)))

-- Each element of a mapped list is the image of one.
In-map : {A B : Type 0} (f : A → B) (xs : List A) (b : B) → In b (map f xs) → (a : A) × (b ≡ f a)
In-map f [] b i = elim i [ ]
In-map f (x ∷ xs) b i = elim (In-cons (f x) b (map f xs) i) [
  | inl e ↦ (x, e)
  | inr j ↦ In-map f xs b j
]

derive_step-Evidenced :
    (name : String) (pod : Option Pod) (result : BuildResult) (done : Bool)
    → (done ≡ true → result ≡ BuildResult.succeeded)
    → Evidenced pod result (derive_step name pod done)
derive_step-Evidenced name pod result done k h =
    let same = derive_step-name name pod done in
    elim (derive_step-succeeded name pod done h) [
      | inl (e, d) ↦ inr (k d, inl (same ∙ e))
      | inr (p, e, x) ↦ inl (p, e, subst (Exited p) (sym same) x)
    ]

derive_build_steps-Evidenced :
    (names : List String) (pod : Option Pod) (result : BuildResult) (done : Bool)
    → (done ≡ true → result ≡ BuildResult.succeeded)
    → All (Evidenced pod result) (derive_build_steps names pod done)
unfolding derive_build_steps
derive_build_steps-Evidenced names pod result done k =
    All-of (Evidenced pod result) (derive_build_steps names pod done) (λ s i.
      let (name, e) = In-map (λ n. derive_step n pod done) names s i in
      subst (Evidenced pod result) (sym e) (derive_step-Evidenced name pod result done k))

gone-Evidenced :
    (names : List String) (result : BuildResult)
    → result ≡ BuildResult.succeeded
    → All (Evidenced none result) (all_succeeded names)
gone-Evidenced names result k =
    All-of (Evidenced none result) (all_succeeded names) (λ s i h. inr (k, inr refl))

-- In a timeline that `observeBuild` writes, of a build in flight with its pod or of one that has ended,
-- a step says that it succeeded only on evidence: the pod has a container of its name that terminated
-- with exit code 0, or the build succeeded, and the step is the release or the pod is gone. In flight
-- it is only the container.
pub final_steps-Evidenced :
    (pod : Option Pod) (app : App)
    → All (Evidenced pod app.status.build.result) (final_steps pod app).steps
      × ((p : Pod)
          → All
              (λ s. s.status ≡ StepStatus.succeeded → Exited p s.name)
              (in_flight (some p) app).status.build.steps)
unfolding final_steps in_flight with_pod derive_step
final_steps-Evidenced pod app = (ended pod, flying)
  where
    ended : (o : Option Pod) → All (Evidenced o app.status.build.result) (final_steps o app).steps
    ended none = elim (Bool-cases (is_success app.status.build.result)) [
      | inl y ↦ rw y (
          gone-Evidenced (applicable_steps app.spec) app.status.build.result
            (is_success-succeeded app.status.build.result y))
      | inr n ↦ rw n (
          derive_build_steps-Evidenced (applicable_steps app.spec) none app.status.build.result
            (is_success app.status.build.result) (is_success-succeeded app.status.build.result))
    ]
    ended (some p) =
        derive_build_steps-Evidenced (applicable_steps app.spec) (some p) app.status.build.result
          (is_success app.status.build.result) (is_success-succeeded app.status.build.result)

    flying :
        (p : Pod)
        → All
            (λ s. s.status ≡ StepStatus.succeeded → Exited p s.name)
            (in_flight (some p) app).status.build.steps
    flying p =
        let names = applicable_steps app.spec in
        let steps = derive_build_steps names (some p) false in
        let borne =
          derive_build_steps-Evidenced names (some p) BuildResult.failed false (λ e. cc e) in
        All-of (λ s. s.status ≡ StepStatus.succeeded → Exited p s.name) steps
          (λ s i h. elim (All-in (Evidenced (some p) BuildResult.failed) i borne h) [
            | inl (q, e, x) ↦ subst (λ r. Exited r s.name) (sym (some-injective p q e)) x
            | inr (e, _) ↦ cc e
          ])
