-- ===== src/Controller/Cleanup/Held.antt =====
-- internal/controller/cleanup.go: a mode whose finished Job was harvested in the pass, and is yet to be
-- deleted, is held.
use toggle_web_baker.Common.{
  ℕ, ◌≤◌, ◌≡◌, refl, ap, String, Bool, true, false, ◌||◌, List, [], ◌∷◌, length, some, lookup, In,
  here, there, All, inl, inr, ◌⊎◌, subst, sym, str_eq_self, str_eq, text_at, ◌∙◌, ok, arith,
}
use toggle_web_baker.Cluster.{Job}
use toggle_web_baker.Domain.Cleanup.{decide_cleanup}
use toggle_web_baker.Controller.Exec.{Client, RunState, next, pure}
use toggle_web_baker.Controller.Exec.Creates.{CreatesAtMost, next-CreatesAtMost, >>>-CreatesAtMost}
use toggle_web_baker.Controller.Cleanup.Actions.{
  Settings, CleanupAction, cleanup_actions_for, action_status, touch_action, cleanup_active,
}
use toggle_web_baker.Controller.Cleanup.Job.{cleanup_mode_label}
use toggle_web_baker.Controller.Cleanup.Observe.{observe_cleanup}
use toggle_web_baker.Controller.Cleanup.Start.{
  decided, consider, consider_all, holds_mode, reconcile_cleanup,
}
use toggle_web_baker.Controller.Cleanup.Spending.{decide-busy, decide-unrequested}
use toggle_web_baker.Controller.Cleanup.Serial.{
  cleanup_active-free, decided-free, observe_cleanup-free,
}

-- A Job of this mode is among those that were harvested.
abbrev pub HasJob : List Job → String → Type 0
HasJob harvested mode =
    (job : Job) × In job harvested
    × (lookup "baker.toggle-corp.com/cleanup-mode" job.labels ≡ some mode)

HasJob-holds_mode :
    (harvested : List Job) (mode : String)
    → HasJob harvested mode
    → holds_mode harvested mode ≡ true
HasJob-holds_mode [] mode (job, i, e) = elim i [ ]
HasJob-holds_mode (_ ∷ harvested) mode (job, here, e) =
    let labelled : text_at cleanup_mode_label job.labels ≡ mode = rw (text_at, e) refl in
    ap (λ t. str_eq t mode || holds_mode harvested mode) labelled ∙ rw (str_eq_self mode) refl
HasJob-holds_mode (job ∷ harvested) mode (found, there i, e) =
    rw (HasJob-holds_mode harvested mode (found, i, e)) (ground arith)

-- The action is not requested, or a Job of its mode was harvested.
abbrev pub Quiet : List Job → CleanupAction → Type 0
Quiet harvested a = (a.requested_at ≡ "") ⊎ HasJob harvested a.mode

module _ {W : Type 0} (env : Settings) (client : Client W) (now : ℕ) (build : Bool)
    (harvested : List Job) where
  consider-Quiet :
      (a : CleanupAction) (before : Bool)
      → Quiet harvested a
      → CreatesAtMost 0 (consider env client now build (holds_mode harvested) a before)
  unfolding consider
  consider-Quiet a before q s =
      let touched = record s { app = touch_action a.mode s.app } in
      let processed = (action_status touched.app.status a.mode).requested_at in
      let held = holds_mode harvested a.mode in
      >>>-CreatesAtMost 0 0 (cleanup_active client)
        (λ active.
          decided env client now a before
            (decide_cleanup a.requested_at processed build (active || before || held)))
        (cleanup_active-free env client now)
        (λ active.
          decided-free env client now a before
            (decide_cleanup a.requested_at processed build (active || before || held))
            (elim q [
              | inl e ↦ rw e (decide-unrequested processed build (active || before || held))
              | inr j ↦
                  decide-busy a.requested_at processed build active before held
                    (HasJob-holds_mode harvested a.mode j)
            ]))
        touched

  consider_all-Quiet :
      (actions : List CleanupAction) (before : Bool)
      → All (Quiet harvested) actions
      → CreatesAtMost 0 (consider_all env client now build (holds_mode harvested) actions before)
  unfolding consider_all
  consider_all-Quiet [] before q s = omega arith
  consider_all-Quiet (a ∷ actions) before q s = omega (
    arith,
    >>>-CreatesAtMost 0 0 (consider env client now build (holds_mode harvested) a before)
        (consider_all env client now build (holds_mode harvested) actions)
        (consider-Quiet a before q.0) (λ after. consider_all-Quiet actions after q.1) s,
  )

-- In a pass of `reconcileCleanup` that harvested these Jobs, where each of the two actions is not
-- requested or has a Job of its mode among them, Create is not called: no Job is created under the
-- name of one that was harvested and is yet to be deleted.
pub reconcile_cleanup-held :
    {W : Type 0} (env : Settings) (client : Client W) (now : ℕ) (build : Bool) (s t : RunState W)
    (harvested : List Job)
    → observe_cleanup env client now s ≡ (ok harvested, t)
    → All (Quiet harvested) (cleanup_actions_for t.app)
    → length (reconcile_cleanup env client now build s).1.creates ≤ length s.creates
unfolding reconcile_cleanup
reconcile_cleanup-held env client now build s t harvested e q =
    let rest = λ (jobs : List Job) (u : RunState _).
      next (λ (_ : Bool). pure jobs)
        (consider_all env client now build (holds_mode jobs) (cleanup_actions_for u.app) false u) in
    let total =
      next-CreatesAtMost 0 (λ (_ : Bool). pure harvested) (λ _ u. omega arith)
        (consider_all env client now build (holds_mode harvested) (cleanup_actions_for t.app) false
          t) in
    let quiet =
      consider_all-Quiet env client now build harvested (cleanup_actions_for t.app) false q t in
    let observed_free = observe_cleanup-free env client now s in
    let kept : length t.creates ≤ length s.creates =
      omega (arith, observed_free, ap (λ r. length r.1.creates) e) in
    subst (λ r. length (next rest r).1.creates ≤ length s.creates) (sym e)
      (omega (arith, total, quiet, kept))
