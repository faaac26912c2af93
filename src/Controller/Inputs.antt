-- ===== src/Controller/Inputs.antt =====
-- internal/controller/app_controller.go: what a reconcile derives from the spec of an App.
use toggle_web_baker.Common.{
  ℕ, String, Bool, true, false, Option, none, some, List, [], ◌∷◌, ◌++◌, map, if◌then◌else◌, str_eq,
  ltb, Map, insert, insert_all,
}
use toggle_web_baker.Common.Int.{ℤ, pos}
use toggle_web_baker.Api.Spec as Spec
use toggle_web_baker.Api.Spec.{AppSpec, EnvVarWithSecret}
use toggle_web_baker.Domain.Registry.{PhaseImage}
use toggle_web_baker.Domain.Storage.{StorageConfig, NamedVolume, volumes}
use toggle_web_baker.Domain.BuildSpec as BuildSpec
use Prim.Native.String.{◌++◌ as str_append}

abbrev pub image_of : String → String → List PhaseImage
image_of phase image = if str_eq image "" then [] else record { phase = phase; image = image } ∷ []

unfoldable pub phase_images : AppSpec → List PhaseImage
phase_images spec =
    let phases = spec.pipeline.phases in
    image_of "setup" phases.setup.phase.image
    ++ (image_of "fetch" phases.fetch.phase.image ++ image_of "build" phases.build.phase.image)

unfoldable pub storage_config_from : AppSpec → StorageConfig
storage_config_from spec =
    let s = spec.storage in
    record {
      cache = record {
        cleanup_bytes = s.cache.cleanup_bytes;
        alert_bytes = s.cache.alert_bytes;
        cap_bytes = pos 0;
      };
      data_cache = record {
        cleanup_bytes = s.data_cache.cleanup_bytes;
        alert_bytes = s.data_cache.alert_bytes;
        cap_bytes = pos 0;
      };
      output = record {
        cleanup_bytes = pos 0;
        alert_bytes = s.output.alert_bytes;
        cap_bytes = s.output.cap_bytes;
      };
    }

abbrev pub alerts_of : List NamedVolume → Map ℤ → Map ℤ
alerts_of [] out = out
alerts_of (v ∷ vs) out = alerts_of vs (insert v.name v.thresholds.alert_bytes out)

unfoldable pub alert_thresholds_from : AppSpec → Map ℤ
unfolding storage_config_from
alert_thresholds_from spec = alerts_of (volumes (storage_config_from spec)) []

-- The list first, then the map; `none` is Go's nil.
abbrev pub env_values : List Spec.EnvVar → Map String → Map String
env_values [] out = out
env_values (e ∷ env) out = env_values env (insert e.name e.value out)

abbrev pub both_empty {ℓ κ} : {A : Type ℓ} {B : Type κ} → List A → List B → Bool
both_empty [] [] = true
both_empty [] (_ ∷ _) = false
both_empty (_ ∷ _) _ = false

unfoldable pub merge_env : List Spec.EnvVar → Map String → Option (Map String)
merge_env env env_map =
    if both_empty env env_map then none else some (insert_all env_map (env_values env []))

unfoldable pub phase_spec_from : Spec.PhaseSpec → Bool → BuildSpec.PhaseSpec
unfolding merge_env
phase_spec_from p skip = record {
  image = p.image;
  command = some p.command;
  run_as_user = p.run_as_user;
  env = merge_env p.env p.env_map;
  skip = skip;
}

abbrev pub ref_of : EnvVarWithSecret → String
ref_of s = str_append s.secret_key_ref.name (str_append "/" s.secret_key_ref.key)

unfoldable pub build_spec_from : AppSpec → BuildSpec.BuildSpec
unfolding phase_spec_from
build_spec_from spec =
    let phases = spec.pipeline.phases in
    record {
      repo = spec.repo;
      ref = spec.ref;
      package_manager = spec.pipeline.package_manager;
      node_version = spec.pipeline.node_version;
      setup = phase_spec_from phases.setup.phase phases.setup.skip;
      fetch = phase_spec_from phases.fetch.phase false;
      build = phase_spec_from phases.build.phase false;
      output_dir = phases.build.output_dir;
      secret_refs = some (map ref_of phases.fetch.secrets);
    }

-- The operator's defaults that an App can override.
pub record Defaults : Type 0 where
  pub history_keep_recent : ℕ
  pub history_keep_failed : ℕ
  pub scheduled_alert_threshold : ℕ

abbrev pub or_default : ℕ → ℕ → ℕ
or_default d n = if ltb 0 n then n else d

unfoldable pub effective_scheduled_threshold : Defaults → AppSpec → ℕ
effective_scheduled_threshold d spec = elim spec.scheduled_builds [
  | none ↦ d.scheduled_alert_threshold
  | some sb ↦ or_default d.scheduled_alert_threshold sb.alert_threshold
]

unfoldable pub effective_history_limits : Defaults → AppSpec → ℕ × ℕ
effective_history_limits d spec = elim spec.history [
  | none ↦ (d.history_keep_recent, d.history_keep_failed)
  | some h ↦ (
    or_default d.history_keep_recent h.keep_recent,
    or_default d.history_keep_failed h.keep_failed,
  )
]
