-- ===== src/Tests/Samples.antt =====
-- An App, Jobs, and a cluster that is the list of its Jobs.
use toggle_web_baker.Common.{Option, first, str_eq, err, Result}
use toggle_web_baker.Controller.Exec.{ApiError, not_found}
use toggle_web_baker.Common.{String, true, false, none, some, List, [], ◌∷◌, ok}
use toggle_web_baker.Common.Int.{pos}
use toggle_web_baker.Domain.Storage.{not_measured}
use toggle_web_baker.Api.Spec.{PhaseSpec, AppSpec}
use toggle_web_baker.Api.Status.{
  Phase, BuildPhase, BuildResult, BuildTrigger, StepStatus, BuildStep, BuildStatus, StorageStatus,
  AppStatus,
}
use toggle_web_baker.Api.App.{App}
use toggle_web_baker.Cluster.{PodSpec, Job, job_complete}
use toggle_web_baker.Controller.Exec.{Client, RunState}
use toggle_web_baker.Controller.Cleanup.Actions.{Settings}

abbrev pub shell_phase : PhaseSpec
shell_phase = record {
  image = "ghcr.io/org/node:20";
  command = "make" ∷ [];
  env = [];
  env_map = [];
  run_as_user = some (pos 1000);
  memory_limit = "256Mi";
}

abbrev pub app_spec : AppSpec
app_spec = record {
  repo = "git@github.com:org/site.git";
  ref = "main";
  scheduled_builds = none;
  watch_commits = none;
  pipeline = record {
    package_manager = "pnpm";
    node_version = 0;
    phases = record {
      setup = record { phase = shell_phase; skip = false };
      fetch = record { phase = shell_phase; secrets = [] };
      build = record { phase = shell_phase; output_dir = "dist" };
    };
  };
  keep_releases = 3;
  repo_auth = none;
  storage = record {
    cache = record { cleanup_bytes = pos 10; alert_bytes = pos 20 };
    data_cache = record { cleanup_bytes = pos 0; alert_bytes = pos 0; run_delta_bytes = pos 0 };
    output = record { alert_bytes = pos 0; cap_bytes = pos 0 };
  };
  history = none;
}

abbrev pub storage_status : StorageStatus
storage_status = record {
  measured_at = some 3;
  sizes = ("cache", pos 100) ∷ ("output", pos 7) ∷ [];
  last_run_deltas = [];
  threshold_state = not_measured;
  release_count = pos 2;
  capacities = [];
}

abbrev pub build_of : String → BuildResult → BuildStatus
build_of job result = record {
  phase = BuildPhase.complete;
  result = result;
  job_name = job;
  pod_name = "";
  start_time = none;
  completion_time = none;
  attempts = 1;
  trigger = BuildTrigger.scheduled;
  triggered_by = "";
  commit = "";
  steps = [];
  resolved_images = [];
  failed_step = "";
  message = "";
  logs_ref = "";
  termination = none;
}

abbrev pub app_status : AppStatus
app_status = record {
  observed_generation = 1;
  phase = Phase.ready;
  node_name = "";
  url = "";
  spec_stale = false;
  conditions = [];
  build = build_of "site-build-1" BuildResult.succeeded;
  consecutive_scheduled_failures = 0;
  build_history = [];
  failed_build_history = [];
  last_processed_rebuild = "1";
  last_built_spec_hash = "abc";
  last_build_time = none;
  last_successful_build_time = some 5;
  release = record { current = "r2"; previous = "r1"; serving_since = none };
  storage = storage_status;
  last_manual_trigger = record { triggered_by = ""; time = none };
  cleanup = none;
}

-- A build and a cleanup of each kind are requested.
abbrev pub site : App
site = record {
  name = "site";
  namespace = "web";
  uid = "u1";
  generation = 1;
  annotations =
      ("rebuild.baker.toggle-corp.com/requested-at", "2")
      ∷ ("cleanup-cache.baker.toggle-corp.com/requested-at", "t1")
      ∷ ("cleanup-releases.baker.toggle-corp.com/requested-at", "t1")
      ∷ [];
  spec = app_spec;
  status = app_status;
}

abbrev pub pod_spec : PodSpec
pod_spec = record {
  node_name = "";
  init_containers = [];
  containers = [];
  volumes = [];
  restart_policy = "Never";
  automount_service_account_token = some false;
  run_as_non_root = true;
  seccomp_runtime_default = true;
  image_pull_secrets = [];
}

-- A Job that has not finished.
abbrev pub job_named : String → Job
job_named name = record {
  name = name;
  namespace = "web";
  uid = name;
  labels = [];
  annotations = [];
  ttl_seconds_after_finished = none;
  backoff_limit = none;
  active_deadline_seconds = none;
  template_labels = [];
  template = pod_spec;
  conditions = [];
}

-- A cleanup Job of the cache that has completed.
abbrev pub done_cleanup : Job
done_cleanup = record (job_named "site-cleanup-cache") {
  labels = ("baker.toggle-corp.com/cleanup-mode", "cache") ∷ [];
  conditions = record { type_ = job_complete; is_true = true; message = "" } ∷ [];
}

abbrev found : Option Job → Result ApiError Job
found none = err not_found
found (some job) = ok job

abbrev pub cluster : Client (List Job)
cluster = record {
  list_jobs = λ namespace labels jobs. ok jobs;
  list_pods = λ namespace labels jobs. ok [];
  set_owner = λ app job. ok job;
  create = λ job jobs. (none, job ∷ jobs);
  get_job = λ namespace name jobs. found (first (λ j. str_eq j.name name) jobs);
  patch_job = λ job jobs. jobs;
  get_capacity = λ namespace name jobs. some (pos 100);
}

abbrev pub state_of : List Job → RunState (List Job)
state_of jobs = record { app = site; world = jobs; creates = []; reports = []; counted = [] }

abbrev pub settings : Settings
settings = record {
  itoa = λ n. "3";
  image = "cleanup:1";
  pull_secret = "";
  parse_result = λ message. none;
  summary = λ res. res.action;
}

abbrev pub build_job : App → String → Job
build_job app token = job_named "site-build-2"

abbrev pub step_of : String → StepStatus → BuildStep
step_of name status = record {
  name = name;
  status = status;
  message = "";
  peak_memory_bytes = 0;
  started_at = none;
  finished_at = none;
  memory_limit = "";
}
