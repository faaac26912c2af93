-- ===== src/Controller/Measure.antt =====
-- internal/controller/measure.go: the du Jobs that measure the caches after a build, their start, and
-- the harvest of their results. `image` is `Config.Images.Du`.
use toggle_web_baker.Common.{
  ℕ, ◌*◌, ◌^◌, String, Bool, true, false, not, ◌||◌, Option, none, some, List, [], ◌∷◌,
  if◌then◌else◌, str_eq, Map, insert, text_at, ok,
}
use toggle_web_baker.Common.Int.{ℤ, pos, ltb_ℤ, ◌-ℤ◌, pos_part}
use toggle_web_baker.Api.App.{App}
use toggle_web_baker.Cluster.{
  claim, SecurityContext, Pod, Job, JobCondition, job_complete, job_failed, job_other, Terminated,
}
use toggle_web_baker.Controller.Exec.{
  Client, Run, ◌>>>◌, pure, query, assign, create_job, job_finished,
}
use toggle_web_baker.Controller.Messages.{byte_count}
use toggle_web_baker.Controller.Sizes.{record_size}
use toggle_web_baker.Controller.Pods.{latest, or_no_pods}
use toggle_web_baker.Controller.Build.{build_active}
use toggle_web_baker.Controller.Cleanup.Job.{labels_for, pull_secrets}
use Prim.Native.String.{◌++◌ as str_append}

pub record Target : Type 0 where
  pub key : String
  pub suffix : String
  pub pvc_name : String
  pub vol_name : String

abbrev measure_container_name : String
measure_container_name = "du"

abbrev measure_target_path : String
measure_target_path = "/target"

abbrev pub measure_volume_label : String
measure_volume_label = "baker.toggle-corp.com/measure-volume"

unfoldable pub measure_targets : App → List Target
measure_targets app =
    record {
      key = "cache";
      suffix = "cache";
      pvc_name = str_append app.name "-cache";
      vol_name = "cache";
    }
    ∷ record {
      key = "dataCache";
      suffix = "data";
      pvc_name = str_append app.name "-data-cache";
      vol_name = "data";
    }
    ∷ []

unfoldable pub measure_job_name : App → String → String
measure_job_name app suffix = str_append app.name (str_append "-measure-" suffix)

unfoldable pub measure_labels_for : App → Map String
unfolding labels_for
measure_labels_for app = insert "baker.toggle-corp.com/role" "measure" (labels_for app)

-- `hardenedSecurityContext()`
unfoldable pub hardened : SecurityContext
hardened = record {
  run_as_user = none;
  run_as_non_root = true;
  read_only_root_filesystem = true;
  allow_privilege_escalation = false;
  seccomp_runtime_default = true;
  drop = "ALL" ∷ [];
  add = [];
}

unfoldable pub measure_job : String → String → App → Target → Job
unfolding measure_labels_for measure_job_name hardened
measure_job image pull_secret app m =
    let labels = insert measure_volume_label m.key (measure_labels_for app) in
    record {
      name = measure_job_name app m.suffix;
      namespace = app.namespace;
      uid = "";
      labels = labels;
      annotations = [];
      ttl_seconds_after_finished = some 300;
      backoff_limit = some 0;
      active_deadline_seconds = some 600;
      template_labels = labels;
      template = record {
        node_name = "";
        init_containers = [];
        containers =
            record {
              name = measure_container_name;
              image = image;
              env = record { name = "TARGET"; value = measure_target_path } ∷ [];
              volume_mounts =
                  record { name = m.vol_name; mount_path = measure_target_path; read_only = true }
                  ∷ [];
              memory_limit = none;
              security_context = some hardened;
            }
            ∷ [];
        volumes = record { name = m.vol_name; source = claim m.pvc_name true } ∷ [];
        restart_policy = "Never";
        automount_service_account_token = some false;
        run_as_non_root = true;
        seccomp_runtime_default = true;
        image_pull_secrets = pull_secrets pull_secret;
      };
      conditions = [];
    }

abbrev pub one_hour : ℕ
one_hour = 3600 * 10 ^ 9

-- The configured interval in nanoseconds, or an hour.
unfoldable pub measure_interval : ℤ → ℕ
measure_interval configured = if ltb_ℤ (pos 0) configured then pos_part configured else one_hour

-- The last measurement is not yet an interval old.
unfoldable pub too_soon : ℕ → ℤ → Option ℕ → Bool
unfolding measure_interval ◌-ℤ◌
too_soon now configured none = false
too_soon now configured (some at_time) =
    ltb_ℤ (pos now -ℤ pos at_time) (pos (measure_interval configured))

abbrev pub is_complete_condition : Option JobCondition → Bool
is_complete_condition none = false
is_complete_condition (some c) = elim c.type_ [
  | job_complete ↦ true
  | job_failed ↦ false
  | job_other ↦ false
]

module _ {W : Type 0} (build_job : App → String → Job) (client : Client W)
    (image pull_secret : String) (interval : ℤ) (now : ℕ) where
  -- The loop over the targets.
  unfoldable pub create_measure_jobs : List Target → Run W (Unit {0})
  unfolding measure_job
  create_measure_jobs [] = pure tt
  create_measure_jobs (m ∷ targets) =
      query (λ app w. client.set_owner app (measure_job image pull_secret app m))
      >>> (λ job. create_job client job)
      >>> λ _. create_measure_jobs targets

  unfoldable pub unless_active : Bool → Run W (Unit {0})
  unfolding create_measure_jobs measure_targets
  unless_active true = pure tt
  unless_active false =
      query (λ app w. ok (measure_targets app)) >>> λ targets. create_measure_jobs targets

  unfoldable pub maybe_start_measurement : Option ℕ → Run W (Unit {0})
  unfolding too_soon build_active create_measure_jobs measure_targets
  maybe_start_measurement prev_measured_at =
      if too_soon now interval prev_measured_at
      then pure tt
      else build_active build_job client now >>> unless_active

  -- The number that the du container of the Job's own pod left.
  unfoldable pub message_bytes : Option (Pod × Terminated) → Option ℕ
  unfolding byte_count
  message_bytes none = none
  message_bytes (some (p, t)) = byte_count t.message

  unfoldable pub read_measurement : App → W → Job → Option ℕ
  unfolding latest byte_count measure_labels_for
  read_measurement app w job = message_bytes (
      latest measure_container_name job
        (or_no_pods (client.list_pods app.namespace (measure_labels_for app) w)))

  unfoldable pub with_size : App → String → ℕ → App
  unfolding record_size
  with_size app key bytes = record app {
    status = record app.status { storage = record_size now app.status.storage key (pos bytes) };
  }

  -- One Job of the loop: the App, and whether the Job was harvested.
  unfoldable pub harvest_job : App → W → Job → App × Bool
  unfolding job_finished read_measurement record_size
  harvest_job app w job =
      let key = text_at measure_volume_label job.labels in
      if not (is_complete_condition (job_finished job)) || str_eq key ""
      then (app, false)
      else (elim (read_measurement app w job) [
        | none ↦ (app, false)
        | some bytes ↦ (with_size app key bytes, true)
      ])

  unfoldable pub harvest_all : App → W → List Job → App × List Job
  unfolding harvest_job
  harvest_all app w [] = (app, [])
  harvest_all app w (job ∷ jobs) =
      let (after, harvested) = harvest_job app w job in
      let (final, rest) = harvest_all after w jobs in
      (final, if harvested then job ∷ rest else rest)

  unfoldable pub harvest_step : List Job → Run W (List Job)
  unfolding harvest_all
  harvest_step jobs s =
      let (app, harvested) = harvest_all s.app s.world jobs in
      (ok harvested, record s { app = app })

  unfoldable pub observe_measurement : Run W (List Job)
  unfolding harvest_all measure_labels_for
  observe_measurement =
      query (λ app w. client.list_jobs app.namespace (measure_labels_for app) w) >>> harvest_step

  -- A capacity that is positive is recorded.
  abbrev pub with_capacity : String → Option ℤ → Map ℤ → Map ℤ
  with_capacity key none caps = caps
  with_capacity key (some q) caps = if ltb_ℤ (pos 0) q then insert key q caps else caps

  unfoldable pub capacities_of : App → W → Map ℤ
  capacities_of app w =
      let of = λ (name : String). client.get_capacity app.namespace (str_append app.name name) w in
      with_capacity "output" (of "-output")
        (with_capacity "dataCache" (of "-data-cache") (with_capacity "cache" (of "-cache") []))

  abbrev pub with_capacities : Map ℤ → App → App
  with_capacities [] app = app
  with_capacities (c ∷ caps) app = record app {
    status = record app.status { storage = record app.status.storage { capacities = c ∷ caps } };
  }

  unfoldable pub record_pvc_capacities : Run W (Unit {0})
  unfolding capacities_of
  record_pvc_capacities =
      query (λ app w. ok (capacities_of app w)) >>> λ caps. assign (with_capacities caps)
