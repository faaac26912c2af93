-- ===== src/Controller/Cleanup/Serial.antt =====
-- internal/controller/cleanup.go: the Jobs that `reconcileCleanup` creates, counted over each step of
-- the pass.
use toggle_web_baker.Common.{
  ℕ, ◌+◌, ◌≤◌, ◌≡◌, refl, ap, String, Bool, true, false, ◌||◌, not, is_some, List, [], ◌∷◌, length,
  any, Result, ok, err, arith,
}
use toggle_web_baker.Cluster.{Job}
use toggle_web_baker.Domain.Cleanup.{
  CleanupDecision, no_cleanup, start_cleanup, wait_cleanup, decide_cleanup,
}
use toggle_web_baker.Controller.Exec.{
  job_finished, ApiError, Client, RunState, Run, next, ◌>>>◌, pure, query, assign, create_job,
}
use toggle_web_baker.Controller.Exec.Creates.{
  CreatesAtMost, create_job-CreatesAtMost, next-CreatesAtMost, >>>-CreatesAtMost,
}
use toggle_web_baker.Controller.Cleanup.Actions.{
  Settings, CleanupAction, cleanup_actions_for, action_status, touch_action, list_cleanup_jobs,
  cleanup_active,
}
use toggle_web_baker.Controller.Cleanup.Job.{cleanup_job}
use toggle_web_baker.Controller.Cleanup.Observe.{observe_cleanup, observed}
use toggle_web_baker.Controller.Cleanup.Start.{
  started, run_start_cleanup, decided, consider, consider_all, holds_mode, reconcile_cleanup,
}
use toggle_web_baker.Controller.Cleanup.Spending.{
  bit, cost, is_start, decide-start_free, decide-build, middle_free, Spends, free-Spends,
  then-Spends, started-cost,
}

module _ {W : Type 0} (env : Settings) (client : Client W) (now : ℕ) where
  run_start-CreatesAtMost :
      (a : CleanupAction) → CreatesAtMost 1 (run_start_cleanup env client now a)
  unfolding run_start_cleanup
  run_start-CreatesAtMost a =
      let owned : Run W Job = query (λ app w.
        client.set_owner app (cleanup_job env.itoa env.image env.pull_secret app a.mode)) in
      let done : Unit {0} → Run W (Unit {0}) = λ _. assign (started now a) in
      >>>-CreatesAtMost 1 0 (owned >>> create_job client) done
        (>>>-CreatesAtMost 0 1 owned (create_job client) (λ s. omega arith)
          (create_job-CreatesAtMost client))
        (λ _ s. omega arith)

  pub cleanup_active-free : CreatesAtMost 0 (cleanup_active client)
  unfolding cleanup_active
  cleanup_active-free =
      let unfinished : List Job → Run W Bool =
        λ jobs. pure (any (λ j. not (is_some (job_finished j))) jobs) in
      >>>-CreatesAtMost 0 0 (list_cleanup_jobs client) unfinished (λ s. omega arith)
        (λ jobs s. omega arith)

  decided-Spends :
      (a : CleanupAction) (before : Bool) (d : CleanupDecision)
      → (is_start d ≡ true → before ≡ false)
      → Spends before (decided env client now a before d)
  decided-Spends a before start_cleanup h s = omega (
    arith,
    ap bit (h refl),
    run_start-CreatesAtMost a s,
    (started-cost (run_start_cleanup env client now a s)).0,
    (started-cost (run_start_cleanup env client now a s)).1,
  )
  decided-Spends a before wait_cleanup h s = omega arith
  decided-Spends a before no_cleanup h s = omega arith

  consider-Spends :
      (build : Bool) (held : String → Bool) (a : CleanupAction) (before : Bool)
      → Spends before (consider env client now build held a before)
  unfolding consider
  consider-Spends build held a before s =
      let touched = record s { app = touch_action a.mode s.app } in
      let processed = (action_status touched.app.status a.mode).requested_at in
      free-Spends before (cleanup_active client)
        (λ active.
          decided env client now a before
            (decide_cleanup a.requested_at processed build (active || before || held a.mode)))
        cleanup_active-free
        (λ active.
          decided-Spends a before
            (decide_cleanup a.requested_at processed build (active || before || held a.mode))
            (λ h. middle_free build active before (held a.mode) (
              decide-start_free a.requested_at processed build (active || before || held a.mode)
                h)))
        touched

  consider_all-Spends :
      (build : Bool) (held : String → Bool) (actions : List CleanupAction) (before : Bool)
      → Spends before (consider_all env client now build held actions before)
  unfolding consider_all
  consider_all-Spends build held [] before s = omega arith
  consider_all-Spends build held (a ∷ actions) before s =
      then-Spends before _ (consider_all-Spends build held actions) (length s.creates)
        (consider env client now build held a before s) (consider-Spends build held a before s)

  observed-free : (jobs : List Job) → CreatesAtMost 0 (observed env client now jobs)
  observed-free jobs s = omega arith

  pub observe_cleanup-free : CreatesAtMost 0 (observe_cleanup env client now)
  unfolding observe_cleanup
  observe_cleanup-free =
      >>>-CreatesAtMost 0 0 (list_cleanup_jobs client) (observed env client now) (λ s. omega arith)
        observed-free

  cost-le : (r : Result ApiError Bool) → cost r ≤ 1
  cost-le (ok true) = omega arith
  cost-le (ok false) = omega arith
  cost-le (err e) = omega arith

  pass-CreatesAtMost :
      (build : Bool) (held : String → Bool) (actions : List CleanupAction)
      → CreatesAtMost 1 (consider_all env client now build held actions false)
  pass-CreatesAtMost build held actions s = omega (
    arith,
    consider_all-Spends build held actions false s,
    cost-le (consider_all env client now build held actions false s).0,
  )

  -- The pass, when its loop over the actions creates at most `n` Jobs.
  reconcile_cleanup-bound :
      (build : Bool) (n : ℕ)
      → ((held : String → Bool) (actions : List CleanupAction)
          → CreatesAtMost n (consider_all env client now build held actions false))
      → CreatesAtMost n (reconcile_cleanup env client now build)
  unfolding reconcile_cleanup
  reconcile_cleanup-bound build n h s = omega (arith, total s)
    where
      rest : List Job → Run W (List Job)
      rest harvested s =
          next (λ _. pure harvested)
            (consider_all env client now build (holds_mode harvested) (cleanup_actions_for s.app)
              false s)

      rest-CreatesAtMost : (harvested : List Job) → CreatesAtMost n (rest harvested)
      rest-CreatesAtMost harvested s = omega (
        arith,
        h (holds_mode harvested) (cleanup_actions_for s.app) s,
        next-CreatesAtMost 0 (λ _. pure harvested) (λ _ s. omega arith)
            (consider_all env client now build (holds_mode harvested) (cleanup_actions_for s.app)
              false s),
      )

      total : CreatesAtMost (0 + n) (observe_cleanup env client now >>> rest)
      total =
          >>>-CreatesAtMost 0 n (observe_cleanup env client now) rest observe_cleanup-free
            rest-CreatesAtMost

  pub decided-free :
      (a : CleanupAction) (before : Bool) (d : CleanupDecision)
      → is_start d ≡ false
      → CreatesAtMost 0 (decided env client now a before d)
  decided-free a before start_cleanup h s = cc
  decided-free a before wait_cleanup h s = omega arith
  decided-free a before no_cleanup h s = omega arith

  consider-free :
      (held : String → Bool) (a : CleanupAction) (before : Bool)
      → CreatesAtMost 0 (consider env client now true held a before)
  unfolding consider
  consider-free held a before s =
      let touched = record s { app = touch_action a.mode s.app } in
      let processed = (action_status touched.app.status a.mode).requested_at in
      omega (
        arith,
        >>>-CreatesAtMost 0 0 (cleanup_active client)
            (λ active.
              decided env client now a before
                (decide_cleanup a.requested_at processed true (active || before || held a.mode)))
            cleanup_active-free
            (λ active.
              decided-free a before
                (decide_cleanup a.requested_at processed true (active || before || held a.mode))
                (decide-build a.requested_at processed (active || before || held a.mode)))
            touched,
      )

  consider_all-free :
      (held : String → Bool) (actions : List CleanupAction) (before : Bool)
      → CreatesAtMost 0 (consider_all env client now true held actions before)
  unfolding consider_all
  consider_all-free held [] before s = omega arith
  consider_all-free held (a ∷ actions) before s = omega (
    arith,
    >>>-CreatesAtMost 0 0 (consider env client now true held a before)
        (consider_all env client now true held actions) (consider-free held a before)
        (consider_all-free held actions) s,
  )

-- A pass of `reconcileCleanup` calls Create at most once, whatever the two requests, the listed Jobs
-- and the API server's answers are, and also where it returns an error.
pub reconcile_cleanup-once :
    {W : Type 0} (env : Settings) (client : Client W) (now : ℕ) (build : Bool) (s : RunState W)
    → length (reconcile_cleanup env client now build s).1.creates ≤ 1 + length s.creates
reconcile_cleanup-once env client now build =
    reconcile_cleanup-bound env client now build 1 (pass-CreatesAtMost env client now build)

-- While a build is active, a pass of `reconcileCleanup` does not call Create.
pub reconcile_cleanup-build :
    {W : Type 0} (env : Settings) (client : Client W) (now : ℕ) (s : RunState W)
    → length (reconcile_cleanup env client now true s).1.creates ≤ length s.creates
reconcile_cleanup-build env client now s = omega (
  arith,
  reconcile_cleanup-bound env client now true 0
      (λ held actions. consider_all-free env client now held actions false) s,
)
