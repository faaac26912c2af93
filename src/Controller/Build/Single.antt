-- ===== src/Controller/Build/Single.antt =====
-- internal/controller/app_controller.go: the Jobs that the build decision of `Reconcile` creates.
use toggle_web_baker.Common.{
  ℕ, ◌≤◌, ◌≡◌, refl, ap, ◌∙◌, sym, String, Bool, true, List, length, is_some, text_at, str_eq_self,
  Result, false, subst, ok, err, arith,
}
use toggle_web_baker.Api.App.{App, rebuild_annotation}
use toggle_web_baker.Cluster.{Job}
use toggle_web_baker.Domain.Trigger.{
  BuildDecision, no_build, start_build, defer_build, decide_build,
}
use toggle_web_baker.Controller.Exec.{ApiError, Client, RunState, next, pure, assign, create_job}
use toggle_web_baker.Controller.Exec.Creates.{
  CreatesAtMost, create_job-CreatesAtMost, next-CreatesAtMost, next-eq-ok, >>>-CreatesAtMost,
}
use toggle_web_baker.Controller.Build.{
  build_labels_for, build_started, active_of, build_active, create_and_record, owned_build_job,
  run_start_build, decided_build, build_step,
}
use toggle_web_baker.Controller.Build.Unfinished.{SomeUnfinished, SomeUnfinished-active_of}

abbrev starts : BuildDecision → ℕ
starts start_build = 1
starts no_build = 0
starts defer_build = 0

decide-active : (token last : String) → starts (decide_build token last true) ≡ 0
unfolding decide_build
decide-active token last = ground arith

decide-processed : (token : String) (active : Bool) → starts (decide_build token token active) ≡ 0
unfolding decide_build
decide-processed token active = rw (str_eq_self token)

module _ {W : Type 0} (build_job : App → String → Job) (client : Client W) (now : ℕ) where
  start-CreatesAtMost :
      (token : String) → CreatesAtMost 1 (run_start_build build_job client now token)
  unfolding run_start_build
  start-CreatesAtMost token =
      >>>-CreatesAtMost 0 1 (owned_build_job build_job client now token)
        (create_and_record build_job client now token) (λ s. omega arith)
        (λ job.
          >>>-CreatesAtMost 1 0 (create_job client job) (λ _. assign (build_started now token job))
            (create_job-CreatesAtMost client job) (λ _ s. omega arith))

  decided_build-CreatesAtMost :
      (token : String) (active : Bool) (d : BuildDecision)
      → CreatesAtMost (starts d) (decided_build build_job client now token active d)
  decided_build-CreatesAtMost token active start_build s = omega (
    arith,
    start-CreatesAtMost token s,
    next-CreatesAtMost 0 (λ _. pure true) (λ _ t. omega arith)
        (run_start_build build_job client now token s),
  )
  decided_build-CreatesAtMost token active defer_build s = omega arith
  decided_build-CreatesAtMost token active no_build s = omega arith

  -- The step once the Jobs are listed.
  abbrev listed_step : Result ApiError (List Job) → RunState W → Result ApiError Bool × RunState W
  listed_step r s =
      let token = text_at rebuild_annotation s.app.annotations in
      next
        (λ active.
          decided_build build_job client now token active
            (decide_build token s.app.status.last_processed_rebuild active))
        (next (λ jobs. pure (is_some (active_of jobs))) (r, s))

  build_step-listed :
      (s : RunState W)
      → build_step build_job client now s
        ≡ listed_step (client.list_jobs s.app.namespace (build_labels_for s.app) s.world) s
  unfolding build_step build_active
  build_step-listed s = refl

  decided_build-idle :
      (token : String) (active : Bool) (d : BuildDecision) (s : RunState W)
      → starts d ≡ 0
      → decided_build build_job client now token active d s ≡ (ok active, s)
  decided_build-idle token active start_build s h = absurd (omega (arith, h))
  decided_build-idle token active defer_build s h = refl
  decided_build-idle token active no_build s h = refl

  listed_step-processed :
      (r : Result ApiError (List Job)) (s : RunState W)
      → s.app.status.last_processed_rebuild ≡ text_at rebuild_annotation s.app.annotations
      → length (listed_step r s).1.creates ≤ length s.creates
  listed_step-processed (err e) s h = omega arith
  listed_step-processed (ok jobs) s h =
      let token = text_at rebuild_annotation s.app.annotations in
      let active = is_some (active_of jobs) in
      omega (
        arith,
        decided_build-CreatesAtMost token active
            (decide_build token s.app.status.last_processed_rebuild active) s,
        ap (λ last. starts (decide_build token last active)) h,
        decide-processed token active,
      )

  started-processed :
      (token : String) (job : Job) (s t : RunState W) (u : Unit {0})
      → create_and_record build_job client now token job s ≡ (ok u, t)
      → (t.app.status.last_processed_rebuild ≡ token) × (t.app.annotations ≡ s.app.annotations)
  unfolding build_started
  started-processed token job s t u h =
      let (a, mid, e, k) =
        next-eq-ok (λ _. assign (build_started now token job)) (create_job client job s) h in
      (
        ap (λ r. r.1.app.status.last_processed_rebuild) (sym k),
        ap (λ r. r.1.app.annotations) (sym k) ∙ sym (ap (λ r. r.1.app.annotations) e),
      )

  start-processed :
      (token : String) (s t : RunState W) (u : Unit {0})
      → run_start_build build_job client now token s ≡ (ok u, t)
      → (t.app.status.last_processed_rebuild ≡ token) × (t.app.annotations ≡ s.app.annotations)
  unfolding run_start_build
  start-processed token s t u h =
      let (job, mid, e, k) =
        next-eq-ok (create_and_record build_job client now token)
          (owned_build_job build_job client now token s) h in
      let (last, same) = started-processed token job mid t u k in
      (last, same ∙ sym (ap (λ r. r.1.app.annotations) e))

-- While the API server lists a build Job that has neither completed nor failed, step 8 of `Reconcile`
-- creates none and changes nothing, and `active` is true after it.
pub build_step-active :
    {W : Type 0} (build_job : App → String → Job) (client : Client W) (now : ℕ) (s : RunState W)
    (jobs : List Job)
    → client.list_jobs s.app.namespace (build_labels_for s.app) s.world ≡ ok jobs
    → SomeUnfinished jobs
    → build_step build_job client now s ≡ (ok true, s)
build_step-active build_job client now s jobs h u =
    let (job, k) = SomeUnfinished-active_of jobs u in
    let token = text_at rebuild_annotation s.app.annotations in
    build_step-listed build_job client now s
    ∙ rw (h, k)
        (decided_build-idle build_job client now token true
          (decide_build token s.app.status.last_processed_rebuild true) s
          (decide-active token s.app.status.last_processed_rebuild))

-- Step 8 that succeeds with no build active has created no Job.
module _ {W : Type 0} (build_job : App → String → Job) (client : Client W) (now : ℕ) where
  started-active :
      (r : Result ApiError (Unit {0}) × RunState W)
      → ◌≡◌ {A = Result ApiError Bool} (next (λ _. pure true) r).0 (ok false)
      → ⊥
  started-active (ok u, s) h = cc h
  started-active (err e, s) h = cc h

  decided_build-inactive :
      (token : String) (active : Bool) (d : BuildDecision) (s : RunState W)
      → (decided_build build_job client now token active d s).0 ≡ ok false
      → length (decided_build build_job client now token active d s).1.creates ≤ length s.creates
  decided_build-inactive token active start_build s h =
      absurd (started-active (run_start_build build_job client now token s) h)
  decided_build-inactive token active defer_build s h = omega arith
  decided_build-inactive token active no_build s h = omega arith

  listed_step-inactive :
      (r : Result ApiError (List Job)) (s : RunState W)
      → (listed_step build_job client now r s).0 ≡ ok false
      → length (listed_step build_job client now r s).1.creates ≤ length s.creates
  listed_step-inactive (err e) s h = omega arith
  listed_step-inactive (ok jobs) s h =
      let token = text_at rebuild_annotation s.app.annotations in
      let active = is_some (active_of jobs) in
      decided_build-inactive token active
        (decide_build token s.app.status.last_processed_rebuild active) s h

  pub build_step-inactive :
      (s : RunState W)
      → (build_step build_job client now s).0 ≡ ok false
      → length (build_step build_job client now s).1.creates ≤ length s.creates
  build_step-inactive s =
      subst (λ r. r.0 ≡ ok false → length r.1.creates ≤ length s.creates)
        (sym (build_step-listed build_job client now s))
        (listed_step-inactive (client.list_jobs s.app.namespace (build_labels_for s.app) s.world) s)

-- Once `startBuild` succeeded for the token of the annotation, later runs of step 8 create no Job for
-- it, whatever the cluster looks like by then.
pub start_build-once :
    {W : Type 0} (build_job : App → String → Job) (client : Client W) (now later : ℕ)
    (s t : RunState W) (w : W)
    → run_start_build build_job client now (text_at rebuild_annotation s.app.annotations) s
      ≡ (ok tt, t)
    → length (build_step build_job client later (record t { world = w })).1.creates
      ≤ length t.creates
start_build-once build_job client now later s t w h =
    let (last, same) =
      start-processed build_job client now (text_at rebuild_annotation s.app.annotations) s t tt
        h in
    omega (
      arith,
      listed_step-processed build_job client later
          (client.list_jobs t.app.namespace (build_labels_for t.app) w) (record t { world = w })
          (last ∙ ap (text_at rebuild_annotation) (sym same)),
      ap (λ r. length r.1.creates)
          (build_step-listed build_job client later (record t { world = w })),
    )
