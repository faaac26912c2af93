-- ===== src/Domain/BuildSpec.antt =====
-- internal/domain/buildspec.go: the part of an app's spec that decides the artifact, and its hash.
-- A Go slice or map that may be nil is an `Option`: `none` is nil, `some []` is present and empty.
-- `json.Marshal` followed by the hex SHA-256 is the argument `digest`.
pub mod Staleness
use toggle_web_baker.Common.{ℕ, String, Bool, not, Option, none, some, List, [], ◌∷◌, str_eq, Map}
use toggle_web_baker.Common.Int.{ℤ}

pub record PhaseSpec : Type 0 where
  pub image : String
  pub command : Option (List String)
  pub run_as_user : Option ℤ
  pub env : Option (Map String)
  pub skip : Bool

pub record BuildSpec : Type 0 where
  pub repo : String
  pub ref : String
  pub package_manager : String
  pub node_version : ℕ
  pub setup : PhaseSpec
  pub fetch : PhaseSpec
  pub build : PhaseSpec
  pub output_dir : String
  pub secret_refs : Option (List String)

-- `if len(x) == 0 { x = nil }`
abbrev pub nil_if_empty {ℓ} : {A : Type ℓ} → Option (List A) → Option (List A)
nil_if_empty none = none
nil_if_empty (some []) = none
nil_if_empty (some (a ∷ as')) = some (a ∷ as')

unfoldable pub normalized_phase : PhaseSpec → PhaseSpec
normalized_phase p = record p { command = nil_if_empty p.command; env = nil_if_empty p.env }

unfoldable pub normalized : BuildSpec → BuildSpec
unfolding normalized_phase
normalized b = record b {
  setup = normalized_phase b.setup;
  fetch = normalized_phase b.fetch;
  build = normalized_phase b.build;
  secret_refs = nil_if_empty b.secret_refs;
}

module _ (digest : BuildSpec → String) where
  unfoldable pub hash : BuildSpec → String
  unfolding normalized
  hash b = digest (normalized b)

  unfoldable pub is_stale : BuildSpec → String → Bool
  unfolding hash
  is_stale current last_built_hash = not (str_eq (hash current) last_built_hash)
