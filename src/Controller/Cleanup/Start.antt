-- ===== src/Controller/Cleanup/Start.antt =====
-- internal/controller/cleanup.go: the pass over the requested actions that starts cleanup Jobs.
use toggle_web_baker.Common.{
  ℕ, String, Bool, true, false, ◌||◌, none, some, List, [], ◌∷◌, if◌then◌else◌, str_eq, any,
  text_at, ok,
}
use toggle_web_baker.Api.Status.{CleanupPhase}
use toggle_web_baker.Api.App.{App}
use toggle_web_baker.Cluster.{Job}
use toggle_web_baker.Domain.Cleanup.{
  CleanupDecision, no_cleanup, start_cleanup, wait_cleanup, decide_cleanup,
}
use toggle_web_baker.Controller.Exec.{Client, Run, ◌>>>◌, pure, query, assign, create_job}
use toggle_web_baker.Controller.Cleanup.Job.{cleanup_mode_label, cleanup_job}
use toggle_web_baker.Controller.Cleanup.Actions.{
  Settings, CleanupAction, cleanup_actions_for, action_status, put_action, touch_action,
  cleanup_active,
}
use toggle_web_baker.Controller.Cleanup.Observe.{observe_cleanup}

abbrev pub started : ℕ → CleanupAction → App → App
started now a app = put_action app a.mode (record (action_status app.status a.mode) {
  requested_at = a.requested_at;
  requested_by = a.requested_by;
  phase = CleanupPhase.running;
  started_at = some now;
  completed_at = none;
})

-- The wait is recorded, but not the token as processed.
unfoldable pub wait_for : CleanupAction → App → App
wait_for a app =
    let st = action_status app.status a.mode in
    put_action app a.mode (record st {
      phase = CleanupPhase.pending;
      requested_by = if str_eq a.requested_by "" then st.requested_by else a.requested_by;
    })

-- `harvestedMode[mode]`
abbrev pub holds_mode : List Job → String → Bool
holds_mode harvested mode =
    any (λ job. str_eq (text_at cleanup_mode_label job.labels) mode) harvested

module _ {W : Type 0} (env : Settings) (client : Client W) (now : ℕ) where
  unfoldable pub run_start_cleanup : CleanupAction → Run W (Unit {0})
  run_start_cleanup a =
      query
        (λ app w. client.set_owner app (cleanup_job env.itoa env.image env.pull_secret app a.mode))
      >>> (λ job. create_job client job)
      >>> λ _. assign (started now a)

  -- The `switch` on the decision. The value is `startedThisPass` afterwards.
  abbrev pub decided : CleanupAction → Bool → CleanupDecision → Run W Bool
  decided a before start_cleanup = run_start_cleanup a >>> λ _. pure true
  decided a before wait_cleanup = assign (wait_for a) >>> λ _. pure before
  decided a before no_cleanup = pure before

  unfoldable pub consider : Bool → (String → Bool) → CleanupAction → Bool → Run W Bool
  unfolding cleanup_active run_start_cleanup
  consider build_active held a before =
      assign (touch_action a.mode)
      >>> (λ _. query (λ app w. ok (action_status app.status a.mode).requested_at))
      >>> λ processed. cleanup_active client >>> λ active.
          decided a before
            (decide_cleanup a.requested_at processed build_active (active || before || held a.mode))

  unfoldable pub consider_all : Bool → (String → Bool) → List CleanupAction → Bool → Run W Bool
  consider_all build_active held [] before = pure before
  consider_all build_active held (a ∷ actions) before =
      consider build_active held a before >>> λ after. consider_all build_active held actions after

  unfoldable pub reconcile_cleanup : Bool → Run W (List Job)
  unfolding observe_cleanup consider_all
  reconcile_cleanup build_active = observe_cleanup env client now >>> λ harvested.
      query (λ app w. ok (cleanup_actions_for app)) >>> λ actions.
      consider_all build_active (holds_mode harvested) actions false >>> λ _. pure harvested
