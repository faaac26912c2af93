-- ===== src/Controller/Config/Load.antt =====
-- internal/controller/config.go: `LoadConfig`, from the decoded file on, with `Validate`. Each part that
-- is read on is a step of its own.
use toggle_web_baker.Common.{
  String, Bool, not, Option, none, some, List, [], ◌∷◌, if◌then◌else◌, str_eq, Codes, Result, ok,
  err, ◌>>=◌, ◌>>◌,
}
use toggle_web_baker.Common.Int.{ℤ}
use toggle_web_baker.Domain.WatchSchedule.{WatchError, watch_cron}
use toggle_web_baker.Controller.Config.File.{
  PhaseResourceDefaults, OperatorConfig, ManagerOptions, FileConfig, ConfigError,
  bad_measure_interval, bad_schedule, bad_watch_interval, bad_quantity, no_cluster_cidrs,
  no_traefik_group, bad_cidr,
}
use toggle_web_baker.Controller.Config.{
  given, reject, default_str, one_hour, defaults, validate_node_images, metadata_ip, file_checks,
  config_of, manager_options,
}

module _ (is_cidr : String → Bool) where
  abbrev pub validate_cidrs : List String → Result ConfigError (Unit {0})
  validate_cidrs [] = ok tt
  validate_cidrs (cidr ∷ cidrs) =
      reject (not (is_cidr cidr)) (bad_cidr cidr) >> validate_cidrs cidrs

  unfoldable pub validate : {Q : Type 0} → OperatorConfig Q → Result ConfigError (Unit {0})
  validate c =
      reject (not (given c.cluster_cidrs)) no_cluster_cidrs
      >> (validate_cidrs c.cluster_cidrs
          >> (reject (not (is_cidr metadata_ip)) (bad_cidr metadata_ip)
              >> reject (str_eq c.traefik_group "") no_traefik_group))

  module _ {Q : Type 0} (parse_duration : String → Option ℤ) (is_cron : String → Bool)
      (parse_quantity : String → Option Q) where
    unfoldable pub load_interval : String → Result ConfigError ℤ
    load_interval text =
        if str_eq text ""
        then ok one_hour
        else (elim (parse_duration text) [ none ↦ err (bad_measure_interval text) | some d ↦ ok d ])

    -- The schedule and the interval for an App that gives none.
    abbrev pub with_watch :
        String → String → Result WatchError Codes → Result ConfigError (String × String)
    with_watch schedule watch (err e) = err (bad_watch_interval e)
    with_watch schedule watch (ok cron) = ok (schedule, watch)

    unfoldable pub load_triggers : FileConfig → Result ConfigError (String × String)
    unfolding watch_cron
    load_triggers fc =
        let schedule = default_str fc.default_schedule "0 */12 * * *" in
        let watch = default_str fc.default_watch_interval "10m" in
        reject (not (is_cron schedule)) (bad_schedule fc.default_schedule)
        >> with_watch schedule watch (watch_cron parse_duration watch)

    unfoldable pub quantity : String → String → Result ConfigError Q
    quantity name text = elim (parse_quantity text) [
      | none ↦ err (bad_quantity name text)
      | some q ↦ ok q
    ]

    unfoldable pub load_resources :
        PhaseResourceDefaults String → Result ConfigError (PhaseResourceDefaults Q)
    unfolding quantity
    load_resources r = quantity "phaseResources.cpu.request" r.cpu_request >>= λ cpu_request.
        quantity "phaseResources.cpu.limit" r.cpu_limit >>= λ cpu_limit.
        quantity "phaseResources.memory.setup" r.memory_setup >>= λ memory_setup.
        quantity "phaseResources.memory.fetch" r.memory_fetch >>= λ memory_fetch.
        quantity "phaseResources.memory.build" r.memory_build >>= λ memory_build. ok (record {
          cpu_request = cpu_request;
          cpu_limit = cpu_limit;
          memory_setup = memory_setup;
          memory_fetch = memory_fetch;
          memory_build = memory_build;
        })

    -- The final checks, on the configuration with its defaults.
    unfoldable pub validated : OperatorConfig Q → Result ConfigError (OperatorConfig Q)
    unfolding validate validate_node_images
    validated cfg = validate cfg >> (validate_node_images cfg.node_images >> ok cfg)

    -- The rest of the reading, from each part that is read on.
    unfoldable pub finish :
        FileConfig → OperatorConfig Q → Result ConfigError (OperatorConfig Q × ManagerOptions)
    unfolding validated manager_options
    finish fc cfg = validated cfg >>= λ valid. ok (valid, manager_options fc)

    unfoldable pub from_resources :
        FileConfig
        → ℤ
        → String × String
        → PhaseResourceDefaults Q
        → Result ConfigError (OperatorConfig Q × ManagerOptions)
    unfolding file_checks defaults config_of finish
    from_resources fc interval triggers resources =
        file_checks fc >>= λ _. finish fc (defaults (config_of fc interval triggers resources))

    unfoldable pub from_triggers :
        FileConfig → ℤ → String × String → Result ConfigError (OperatorConfig Q × ManagerOptions)
    unfolding load_resources from_resources
    from_triggers fc interval triggers =
        load_resources fc.phase_resources >>= from_resources fc interval triggers

    unfoldable pub from_interval :
        FileConfig → ℤ → Result ConfigError (OperatorConfig Q × ManagerOptions)
    unfolding load_triggers from_triggers
    from_interval fc interval = load_triggers fc >>= from_triggers fc interval

    unfoldable pub load_config : FileConfig → Result ConfigError (OperatorConfig Q × ManagerOptions)
    unfolding load_interval from_interval
    load_config fc = load_interval fc.measure_interval >>= from_interval fc
