-- ===== src/Controller/Build/Unfinished.antt =====
-- internal/controller/app_controller.go: what `buildActive` finds among the listed Jobs.
use toggle_web_baker.Common.{
  ◌≡◌, refl, ap, Bool, true, some, List, is_some, false, not, ◌&&◌, In, here, there, first,
  first-In, Option-cases, Bool-cases, inl, inr, ◌⊎◌, [], ◌∷◌, arith,
}
use toggle_web_baker.Cluster.{Job, JobCondition, job_complete, job_failed}
use toggle_web_baker.Controller.Exec.{is_terminal, job_finished}
use toggle_web_baker.Controller.Build.{active_of}

-- The Job has neither completed nor failed: no condition of either type is true.
abbrev pub Unfinished : Job → Type 0
Unfinished job =
    (c : JobCondition)
    → In c job.conditions
    → (c.type_ ≡ job_complete) ⊎ (c.type_ ≡ job_failed)
    → c.is_true ≡ false

terminal_type :
    (c : JobCondition)
    → is_terminal c.type_ ≡ true
    → (c.type_ ≡ job_complete) ⊎ (c.type_ ≡ job_failed)
terminal_type c h = ground arith

Unfinished-job_finished : (job : Job) → Unfinished job → is_some (job_finished job) ≡ false
unfolding job_finished
Unfinished-job_finished job u = elim (Option-cases (job_finished job)) [
  | inl e ↦ rw e refl
  | inr (c, e) ↦
      let (i, h) = first-In (λ d. is_terminal d.type_ && d.is_true) job.conditions c e in
      let is_set : c.is_true ≡ true = ground (arith, h) in
      let unset : c.is_true ≡ false = u c i (terminal_type c (ground (arith, h))) in
      absurd (cc (is_set, unset))
]

-- Among the Jobs is one that is unfinished.
abbrev pub SomeUnfinished : List Job → Type 0
SomeUnfinished jobs = (job : Job) × In job jobs × Unfinished job

In-first :
    {A : Type 0} (p : A → Bool) (xs : List A) {a : A}
    → In a xs
    → p a ≡ true
    → (b : A) × (first p xs ≡ some b)
In-first p [] i h = elim i [ ]
In-first p (x ∷ xs) here h = (x, rw h refl)
In-first p (x ∷ xs) (there i) h = elim (Bool-cases (p x)) [
  | inl y ↦ (x, rw y refl)
  | inr n ↦ let (b, e) = In-first p xs i h in (b, rw n e)
]

pub SomeUnfinished-active_of :
    (jobs : List Job) → SomeUnfinished jobs → (job : Job) × (active_of jobs ≡ some job)
SomeUnfinished-active_of jobs (job, i, u) =
    In-first (λ j. not (is_some (job_finished j))) jobs i (ap not (Unfinished-job_finished job u))
