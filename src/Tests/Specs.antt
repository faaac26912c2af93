-- ===== src/Tests/Specs.antt =====
-- internal/domain at concrete inputs.
use toggle_web_baker.Common.{
  ℕ, ◌*◌, ◌^◌, ◌≡◌, ◌⊎◌, ◌↔◌, String, true, false, Option, none, some, List, [], ◌∷◌, In, Map, map,
  Codes, codes, to_lower, trim_space, ok,
}
use toggle_web_baker.Common.Int.{ℤ, pos}
use toggle_web_baker.Domain.Registry.{PhaseImage, image_allowed}
use toggle_web_baker.Domain.Registry.Boundary.{Permitted, image_allowed-Permitted}
use toggle_web_baker.Domain.RepoHost.{repo_host, repo_host_allowed}
use toggle_web_baker.Domain.RepoHost.Scp.{repo_host_allowed_iff}
use toggle_web_baker.Domain.Storage.{
  StorageConfig, critical, validate_storage, evaluate_threshold_state,
}
use toggle_web_baker.Domain.Storage.Ordering.{IsOrdered, validate_storage-IsOrdered}
use toggle_web_baker.Domain.Storage.State.{cap, Crossed, critical_iff}
use toggle_web_baker.Domain.WatchSchedule.{watch_cron}
use toggle_web_baker.Domain.WatchSchedule.Grid.{Grid, watch_cron-Grid}
use toggle_web_baker.Domain.BuildSpec.{PhaseSpec, BuildSpec}

abbrev registries : List String
registries = "ghcr.io/org" ∷ "node:" ∷ []

abbrev outside : Codes
outside = codes "ghcr.io/orgevil/node"

image_allowed-Permitted_example :
    ((image_allowed (map codes registries) outside ≡ some true)
      × Permitted (map codes registries) outside)
    ⊎ ((image_allowed (map codes registries) outside ≡ some false)
        × ¬ Permitted (map codes registries) outside)
image_allowed-Permitted_example = image_allowed-Permitted (map codes registries) outside

abbrev phase_images : List PhaseImage
phase_images =
    record { phase = "setup"; image = "ghcr.io/org/node:20" }
    ∷ record { phase = "build"; image = "node:20" }
    ∷ []

-- A parser that finds one host in every URL.
abbrev one_host : Codes → Option Codes
one_host url = some (codes "git.example.org")

repo_host_allowed_iff_example :
    (repo_host_allowed one_host (codes "git@GitHub.com:org/site") (codes "github.com" ∷ []) ≡ true)
    ↔ ((host : Codes) × (repo_host one_host (codes "git@GitHub.com:org/site") ≡ ok host)
        × (entry : Codes) × In entry (codes "github.com" ∷ [])
        × (to_lower host ≡ to_lower (trim_space entry)))
repo_host_allowed_iff_example =
    repo_host_allowed_iff one_host (codes "git@GitHub.com:org/site") (codes "github.com" ∷ [])

abbrev disk : StorageConfig
disk = record {
  cache = record { cleanup_bytes = pos 10; alert_bytes = pos 20; cap_bytes = pos 0 };
  data_cache = record { cleanup_bytes = pos 0; alert_bytes = pos 0; cap_bytes = pos 0 };
  output = record { cleanup_bytes = pos 0; alert_bytes = pos 5; cap_bytes = pos 30 };
}

validate_storage-IsOrdered_example :
    (validate_storage disk ≡ ok tt)
    ↔ (IsOrdered disk.cache × IsOrdered disk.data_cache × IsOrdered disk.output)
validate_storage-IsOrdered_example = validate_storage-IsOrdered disk

abbrev usage : Map ℤ
usage = ("cache", pos 25) ∷ ("output", pos 30) ∷ []

critical_iff_example : (evaluate_threshold_state usage disk ≡ critical) ↔ Crossed cap disk usage
critical_iff_example = critical_iff usage disk

-- A parser for which every text is ten minutes.
abbrev ten_minutes : String → Option ℤ
ten_minutes interval = some (pos (600 * 10 ^ 9))

watch_cron-Grid_example :
    (watch_cron ten_minutes "10m" ≡ ok (codes "*/10 * * * *"))
    ↔ ((d : ℕ) × (ten_minutes "10m" ≡ some (pos d)) × Grid d (codes "*/10 * * * *"))
watch_cron-Grid_example = watch_cron-Grid ten_minutes "10m" (codes "*/10 * * * *")

abbrev plain_phase : PhaseSpec
plain_phase = record { image = ""; command = none; run_as_user = none; env = none; skip = false }

abbrev site_spec : BuildSpec
site_spec = record {
  repo = "https://github.com/org/site";
  ref = "main";
  package_manager = "pnpm";
  node_version = 20;
  setup = plain_phase;
  fetch = plain_phase;
  build = plain_phase;
  output_dir = "dist";
  secret_refs = none;
}

abbrev ref_digest : BuildSpec → String
ref_digest b = b.ref
