-- ===== src/Controller/Cleanup/Observe.antt =====
-- internal/controller/cleanup.go: finished cleanup Jobs are read and their results recorded.
use Prim.Native.String.{◌++◌ as str_append}
use toggle_web_baker.Common.{
  ℕ, String, Bool, true, false, not, ◌&&◌, ◌||◌, Option, none, some, List, [], ◌∷◌, if◌then◌else◌,
  ltb, str_eq, keep, text_at, codes, trim_space, ok, err,
}
use toggle_web_baker.Common.Int.{pos, ltb_ℤ, eqb_ℤ}
use toggle_web_baker.Api.Status.{CleanupPhase, CleanupActionStatus}
use toggle_web_baker.Api.App.{App}
use toggle_web_baker.Cluster.{
  Pod, ContainerStatus, Terminated, Job, JobCondition, JobConditionType, job_complete, job_failed,
  job_other,
}
use toggle_web_baker.Controller.Sizes.{record_size}
use toggle_web_baker.Controller.Exec.{Client, Run, ◌>>>◌, job_finished, owned_by_job}
use toggle_web_baker.Controller.Cleanup.Job.{
  mode_releases, cleanup_mode_label, cleanup_container_name, cleanup_labels_for,
}
use toggle_web_baker.Controller.Cleanup.Actions.{
  Settings, CleanupResult, action_status, put_action, touch_action, size_key_for_cleanup_mode,
  list_cleanup_jobs,
}

-- The latest termination of the cleanup container, of the containers seen so far; the first of equals.
abbrev pub later_of : Option Terminated → ContainerStatus → Option Terminated
later_of best cs =
    if not (str_eq cs.name cleanup_container_name) then best else (elim cs.terminated [
      | none ↦ best
      | some t ↦ elim best [
        | none ↦ some t
        | some b ↦ if ltb b.finished_at t.finished_at then some t else some b
      ]
    ])

abbrev pub latest : Option Terminated → List ContainerStatus → Option Terminated
latest best [] = best
latest best (cs ∷ rest) = latest (later_of best cs) rest

abbrev pub latest_of_pods : Option Terminated → List Pod → Option Terminated
latest_of_pods best [] = best
latest_of_pods best (p ∷ pods) = latest_of_pods (latest best p.container_statuses) pods

abbrev pub no_result : CleanupResult
no_result = record {
  action = "";
  reason = "";
  before = pos 0;
  after = pos 0;
  reclaimed = pos 0;
  threshold = pos 0;
  kept = pos 0;
  deleted = pos 0;
}

abbrev pub parsed : Settings → Option CleanupResult → CleanupResult × String
parsed env none = (no_result, "cleanup completed")
parsed env (some res) = (res, env.summary res)

abbrev pub result_of : Settings → Option Terminated → CleanupResult × String
result_of env none = (no_result, "cleanup completed")
result_of env (some t) = parsed env (env.parse_result (trim_space (codes t.message)))

unfoldable pub read_cleanup_result :
    {W : Type 0} → Settings → Client W → Job → App → W → CleanupResult × String
read_cleanup_result env client job app w =
    elim (client.list_pods app.namespace (cleanup_labels_for app) w) [
      | err _ ↦ (no_result, "")
      | ok pods ↦ result_of env (latest_of_pods none (keep (λ p. owned_by_job p job) pods))
    ]

abbrev pub is_terminal_phase : CleanupPhase → Bool
is_terminal_phase CleanupPhase.succeeded = true
is_terminal_phase CleanupPhase.failed = true
is_terminal_phase CleanupPhase.unset = false
is_terminal_phase CleanupPhase.pending = false
is_terminal_phase CleanupPhase.running = false

abbrev pub with_storage_size : ℕ → String → CleanupResult → App → App
with_storage_size now mode res app =
    if not (str_eq res.action "skip") && ltb_ℤ (pos 0) res.before
    then record app {
      status = record app.status {
        storage = record_size now app.status.storage (size_key_for_cleanup_mode mode) res.after;
      };
    }
    else app

abbrev pub with_release_count : String → CleanupResult → App → App
with_release_count mode res app =
    if str_eq mode mode_releases
      && str_eq res.action "release-prune"
      && (ltb_ℤ (pos 0) res.kept || ltb_ℤ (pos 0) res.deleted || eqb_ℤ res.before (pos 0))
    then record app {
      status = record app.status {
        storage = record app.status.storage { release_count = res.kept };
      };
    }
    else app

abbrev pub completed : ℕ → String → App → CleanupActionStatus
completed now mode app = record (action_status app.status mode) { completed_at = some now }

unfoldable pub cleanup_succeeded : ℕ → String → CleanupResult × String → App → App
cleanup_succeeded now mode (res, msg) app = with_release_count mode res (
    with_storage_size now mode res (
      put_action app mode (record (completed now mode app) {
        phase = CleanupPhase.succeeded;
        reclaimed_bytes = res.reclaimed;
        message = msg;
      })))

unfoldable pub cleanup_failed : ℕ → String → String → App → App
cleanup_failed now mode message app = put_action app mode (record (completed now mode app) {
  phase = CleanupPhase.failed;
  reclaimed_bytes = pos 0;
  message = str_append "cleanup failed: " message;
})

abbrev pub is_complete_condition : JobConditionType → Bool
is_complete_condition job_complete = true
is_complete_condition job_failed = false
is_complete_condition job_other = false

module _ {W : Type 0} (env : Settings) (client : Client W) (now : ℕ) where
  -- What a finished Job of this mode writes, where the record of its action is not terminal yet.
  unfoldable pub finish_cleanup : Job → String → JobCondition → W → App → App
  unfolding action_status read_cleanup_result
  finish_cleanup job mode cond w app =
      if is_terminal_phase (action_status app.status mode).phase
      then app
      else if is_complete_condition cond.type_
      then cleanup_succeeded now mode (read_cleanup_result env client job app w) app
      else cleanup_failed now mode cond.message app

  -- A Job and the condition it has finished with, if any: harvested, with the App it leaves, or
  -- passed over.
  unfoldable pub observe_outcome : Job → Option JobCondition → W → App → Bool × App
  unfolding finish_cleanup put_action
  observe_outcome job none w app = (false, app)
  observe_outcome job (some cond) w app =
      let mode = text_at cleanup_mode_label job.labels in
      if str_eq mode ""
      then (false, app)
      else (true, finish_cleanup job mode cond w (touch_action mode app))

  unfoldable pub observe_job : Job → W → App → Bool × App
  unfolding job_finished observe_outcome
  observe_job job w app = observe_outcome job (job_finished job) w app

  abbrev pub harvest : Job → Bool → List Job → List Job
  harvest job true jobs = job ∷ jobs
  harvest job false jobs = jobs

  unfoldable pub observe_jobs : List Job → W → App → List Job × App
  observe_jobs [] w app = ([], app)
  observe_jobs (job ∷ jobs) w app =
      let (taken, seen) = observe_job job w app in
      let (harvested, done) = observe_jobs jobs w seen in (harvest job taken harvested, done)

  abbrev pub observed : List Job → Run W (List Job)
  observed jobs s =
      let (harvested, app) = observe_jobs jobs s.world s.app in
      (ok harvested, record s { app = app })

  unfoldable pub observe_cleanup : Run W (List Job)
  observe_cleanup = list_cleanup_jobs client >>> observed
