-- ===== src/Controller/Cleanup/Harvest.antt =====
-- internal/controller/cleanup.go: a finished cleanup Job that is read again before it is deleted.
use toggle_web_baker.Common.{
  ℕ, ◌≡◌, refl, inl, inr, ap, ◌∙◌, String, true, not, ◌&&◌, ◌||◌, Option, none, some, str_eq,
  text_at, Bool-cases,
}
use toggle_web_baker.Common.Int.{pos, ltb_ℤ, eqb_ℤ}
use toggle_web_baker.Api.Status.{CleanupActionStatus}
use toggle_web_baker.Api.App.{App}
use toggle_web_baker.Cluster.{Job, JobCondition}
use toggle_web_baker.Controller.Sizes.{record_size}
use toggle_web_baker.Controller.Exec.{Client, job_finished}
use toggle_web_baker.Controller.Cleanup.Job.{mode_releases, cleanup_mode_label}
use toggle_web_baker.Controller.Cleanup.Actions.{
  Settings, CleanupResult, action_status, put_action, touch_action, size_key_for_cleanup_mode,
}
use toggle_web_baker.Controller.Cleanup.Observe.{
  with_storage_size, with_release_count, cleanup_succeeded, cleanup_failed, is_terminal_phase,
  is_complete_condition, finish_cleanup, observe_outcome, observe_job, read_cleanup_result,
}

action_status-put_action :
    (app : App) (mode : String) (a : CleanupActionStatus)
    → action_status (put_action app mode a).status mode ≡ a
unfolding action_status put_action
action_status-put_action app mode a = elim (Bool-cases (str_eq mode mode_releases)) [
  | inl y ↦ rw y
  | inr n ↦ rw n
]

put_action-again :
    (app : App) (mode : String) (a b : CleanupActionStatus)
    → put_action (put_action app mode a) mode b ≡ put_action app mode b
unfolding put_action
put_action-again app mode a b = elim (Bool-cases (str_eq mode mode_releases)) [
  | inl y ↦ rw y
  | inr n ↦ rw n
]

touch-put_action :
    (app : App) (mode : String) (a : CleanupActionStatus)
    → touch_action mode (put_action app mode a) ≡ put_action app mode a
touch-put_action app mode a =
    ap (put_action (put_action app mode a) mode) (action_status-put_action app mode a)
    ∙ put_action-again app mode a a

-- The record of this mode exists, and its phase is terminal.
abbrev IsRecorded : String → App → Type 0
IsRecorded mode app =
    (touch_action mode app ≡ app) × (is_terminal_phase (action_status app.status mode).phase ≡ true)

with_storage_size-IsRecorded :
    (now : ℕ) (mode : String) (res : CleanupResult) (app : App)
    → IsRecorded mode app
    → IsRecorded mode (with_storage_size now mode res app)
unfolding action_status put_action
with_storage_size-IsRecorded now mode res app (t, h) =
    elim (Bool-cases (not (str_eq res.action "skip") && ltb_ℤ (pos 0) res.before)) [
      | inl y ↦
          let sized : App → App = λ x. record x {
            status = record x.status {
              storage =
                  record_size now app.status.storage (size_key_for_cleanup_mode mode) res.after;
            };
          } in
          rw y (ap sized t, h)
      | inr n ↦ rw n (t, h)
    ]

with_release_count-IsRecorded :
    (mode : String) (res : CleanupResult) (app : App)
    → IsRecorded mode app
    → IsRecorded mode (with_release_count mode res app)
unfolding action_status put_action
with_release_count-IsRecorded mode res app (t, h) =
    elim (Bool-cases (
      str_eq mode mode_releases
      && str_eq res.action "release-prune"
      && (ltb_ℤ (pos 0) res.kept || ltb_ℤ (pos 0) res.deleted || eqb_ℤ res.before (pos 0)))) [
        | inl y ↦
            let counted : App → App = λ x. record x {
              status = record x.status {
                storage = record app.status.storage { release_count = res.kept };
              };
            } in
            rw y (ap counted t, h)
        | inr n ↦ rw n (t, h)
      ]

put_action-IsRecorded :
    (app : App) (mode : String) (a : CleanupActionStatus)
    → is_terminal_phase a.phase ≡ true
    → IsRecorded mode (put_action app mode a)
put_action-IsRecorded app mode a h = (
  touch-put_action app mode a,
  ap (λ b. is_terminal_phase b.phase) (action_status-put_action app mode a) ∙ h,
)

cleanup_succeeded-IsRecorded :
    (now : ℕ) (mode : String) (r : CleanupResult × String) (app : App)
    → IsRecorded mode (cleanup_succeeded now mode r app)
unfolding cleanup_succeeded
cleanup_succeeded-IsRecorded now mode (res, msg) app =
    with_release_count-IsRecorded mode res _
      (with_storage_size-IsRecorded now mode res _ (put_action-IsRecorded app mode _ refl))

cleanup_failed-IsRecorded :
    (now : ℕ) (mode message : String) (app : App)
    → IsRecorded mode (cleanup_failed now mode message app)
unfolding cleanup_failed
cleanup_failed-IsRecorded now mode message app = put_action-IsRecorded app mode _ refl

module _ {W : Type 0} (env : Settings) (client : Client W) where
  finish_cleanup-IsRecorded :
      (now : ℕ) (job : Job) (mode : String) (cond : JobCondition) (w : W) (app : App)
      → touch_action mode app ≡ app
      → IsRecorded mode (finish_cleanup env client now job mode cond w app)
  unfolding finish_cleanup
  finish_cleanup-IsRecorded now job mode cond w app t =
      elim (Bool-cases (is_terminal_phase (action_status app.status mode).phase)) [
        | inl y ↦ rw y (t, y)
        | inr n ↦ elim (Bool-cases (is_complete_condition cond.type_)) [
          | inl c ↦
              rw (n, c)
                (cleanup_succeeded-IsRecorded now mode (read_cleanup_result env client job app w)
                  app)
          | inr c ↦ rw (n, c) (cleanup_failed-IsRecorded now mode cond.message app)
        ]
      ]

  finish_cleanup-recorded :
      (now : ℕ) (job : Job) (mode : String) (cond : JobCondition) (w : W) (app : App)
      → IsRecorded mode app
      → finish_cleanup env client now job mode cond w (touch_action mode app) ≡ app
  unfolding finish_cleanup
  finish_cleanup-recorded now job mode cond w app (t, h) = rw (t, h)

  observe_outcome-again :
      (now later : ℕ) (job : Job) (o : Option JobCondition) (w v : W) (app : App)
      → observe_outcome env client later job o v (observe_outcome env client now job o w app).1
        ≡ observe_outcome env client now job o w app
  unfolding observe_outcome
  observe_outcome-again now later job none w v app = refl
  observe_outcome-again now later job (some cond) w v app =
      let mode : String = text_at cleanup_mode_label job.labels in
      elim (Bool-cases (str_eq mode "")) [
        | inl y ↦ rw y
        | inr n ↦
            let touched : App = touch_action mode app in
            rw n (
              ap (λ x. (true, x))
                (finish_cleanup-recorded later job mode cond v
                  (finish_cleanup env client now job mode cond w touched)
                  (finish_cleanup-IsRecorded now job mode cond w touched
                    (touch-put_action app mode (action_status app.status mode)))))
      ]

-- A cleanup Job that was observed once is observed again, at any later time and in any state of the
-- cluster, without any change to the App, and it is harvested exactly where it was harvested before.
pub observe_job-again :
    {W : Type 0} (env : Settings) (client : Client W) (now later : ℕ) (job : Job) (w v : W)
    (app : App)
    → observe_job env client later job v (observe_job env client now job w app).1
      ≡ observe_job env client now job w app
unfolding observe_job
observe_job-again env client now later job w v app =
    observe_outcome-again env client now later job (job_finished job) w v app
