-- ===== src/Tests/Reconciles.antt =====
-- A pass of the reconciler, and the theorems about it at it.
use toggle_web_baker.Common.{String, Bool, true, ◌≡◌, refl, none, List, [], ok, length, arith}
use toggle_web_baker.Common.Int.{pos}
use toggle_web_baker.Cluster.{Job}
use toggle_web_baker.Controller.Config.{config_of, defaults}
use toggle_web_baker.Controller.Reconcile.{
  Parts, reconcile, before_cleanup, act, observed, from_checks, admitted, sync_credential,
  with_credential, with_storage, with_storage_class, build_up, bootstrap, clean, after_cleanup,
}
use toggle_web_baker.Controller.Reconcile.Admitted.{Early, Late, reconcile-Admitted}
use toggle_web_baker.Domain.Registry.{is_image_boundary}
use toggle_web_baker.Domain.Storage.{validate_volume}
use toggle_web_baker.Domain.Trigger.{decide_build}
use toggle_web_baker.Domain.Cleanup.{decide_cleanup}
use toggle_web_baker.Controller.Conditions.{find_condition}
use toggle_web_baker.Controller.Measure.{harvest_step}
use toggle_web_baker.Controller.Cleanup.Actions.{cleanup_actions_for}
use toggle_web_baker.Controller.Cleanup.Start.{consider, wait_for}
use toggle_web_baker.Controller.Cleanup.Observe.{observe_jobs, observe_job}
use toggle_web_baker.Controller.Lifecycle.{with_pod}
use toggle_web_baker.Controller.Lifecycle.Observe.{build_pods}
use toggle_web_baker.Tests.Samples as Samples
use toggle_web_baker.Tests.Samples.{site, build_job, cluster, state_of}
use toggle_web_baker.Tests.Configs.{is_cidr, parse_duration, file, resources}
use toggle_web_baker.Tests.Lifecycles as Lifecycles

-- A decision of the credential is a Boolean here.
abbrev parts : Parts (List Job) String Bool
parts = record {
  config = defaults (config_of file (pos 60) ("0 * * * *", "10m") resources);
  is_cidr = is_cidr;
  parse_duration = parse_duration;
  storage_class = "local-path";
  waits_for_consumer = λ name jobs. ok true;
  text = λ r. "refused";
  unix_seconds = λ n. "7";
  reconcile_git_credential = λ app jobs. (ok true, jobs);
  get_secret = λ namespace name jobs. ok [];
  ensure_infra = λ app cred jobs. (none, jobs);
  ensure_serving = λ app jobs. (none, (app, jobs));
  update_status = λ app jobs. (none, jobs);
  patch_app = λ app jobs. (none, jobs);
  delete_job = λ job jobs. jobs;
  build_job = λ cred. build_job;
  observing = Lifecycles.settings;
  cleaning = Samples.settings;
}

creates-some : length (reconcile parts cluster 9 (state_of [])).1.creates ≡ 1
unfolding reconcile from_checks admitted sync_credential with_credential with_storage
    with_storage_class build_up bootstrap act before_cleanup clean after_cleanup defaults config_of
    is_image_boundary validate_volume find_condition decide_build harvest_step cleanup_actions_for
    consider decide_cleanup observe_jobs observe_job with_pod build_pods wait_for
creates-some = refl

reconcile-Admitted_example :
    Early parts cluster 9 (observed parts cluster 9 site)
    × Late parts cluster 9 (observed parts cluster 9 site) []
reconcile-Admitted_example =
    reconcile-Admitted parts cluster 9 (state_of []) (omega (arith, creates-some))
