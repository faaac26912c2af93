-- ===== src/Domain/BuildSpec/Staleness.antt =====
-- When an app is stale (internal/domain/buildspec.go).
use toggle_web_baker.Common.{
  ◌≡◌, refl, ap, ◌↔◌, false, not, Option, none, some, List, [], arith, str_eq, eq_iff, String,
}
use toggle_web_baker.Domain.BuildSpec.{
  PhaseSpec, BuildSpec, nil_if_empty, normalized_phase, normalized, hash, is_stale,
}

-- An omitted collection as the API server may hand it back: present and empty.
abbrev pub present {ℓ} : {A : Type ℓ} → Option (List A) → Option (List A)
present none = some []
present (some xs) = some xs

abbrev present_phase : PhaseSpec → PhaseSpec
present_phase p = record p { command = present p.command; env = present p.env }

abbrev pub materialized : BuildSpec → BuildSpec
materialized b = record b {
  setup = present_phase b.setup;
  fetch = present_phase b.fetch;
  build = present_phase b.build;
  secret_refs = present b.secret_refs;
}

nil_if_empty-present {ℓ} :
    {A : Type ℓ} (o : Option (List A)) → nil_if_empty (present o) ≡ nil_if_empty o
nil_if_empty-present none = refl
nil_if_empty-present (some xs) = refl

normalized_phase-present : (p : PhaseSpec) → normalized_phase (present_phase p) ≡ normalized_phase p
unfolding normalized_phase
normalized_phase-present p = rw (nil_if_empty-present p.command, nil_if_empty-present p.env) refl

normalized-materialized : (b : BuildSpec) → normalized (materialized b) ≡ normalized b
unfolding normalized
normalized-materialized b =
    rw
      (
        nil_if_empty-present b.secret_refs,
        normalized_phase-present b.setup,
        normalized_phase-present b.fetch,
        normalized_phase-present b.build,
      )
      refl

module _ (digest : BuildSpec → String) where
  -- A spec whose omitted commands, environments and secret references are handed back present and
  -- empty is as stale as before, and a spec is not stale exactly when its hash is the recorded one.
  pub is_stale-materialized :
      (b : BuildSpec) (recorded : String)
      → (is_stale digest (materialized b) recorded ≡ is_stale digest b recorded)
        × ((is_stale digest b recorded ≡ false) ↔ (hash digest b ≡ recorded))
  unfolding is_stale
  is_stale-materialized b recorded = (
    ap (λ s. not (str_eq (digest s) recorded)) (normalized-materialized b),
    ground (arith, eq_iff (hash digest b) recorded),
  )

  -- With a digest that tells payloads apart, two specs share a hash only if they are the same up
  -- to empty collections: any other edit of a hashed field makes the app stale.
  pub is_stale_edit :
      ((x y : BuildSpec) → digest x ≡ digest y → x ≡ y)
      → (before after : BuildSpec) → is_stale digest after (hash digest before) ≡ false
      → normalized after ≡ normalized before
  unfolding is_stale
  is_stale_edit injective before after h =
      injective _ _ (ground (arith, eq_iff (hash digest after) (hash digest before)))
