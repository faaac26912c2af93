-- ===== src/Domain/NodeImage.antt =====
-- internal/domain/nodeimage.go: the operator's managed node images, keyed by the decimal major.
-- A major version is at least 1 where it is set (the CRD's minimum), and 0 where it is not.
use toggle_web_baker.Common.{
  ℕ, String, Option, none, some, [], ◌∷◌, if◌then◌else◌, ◌==◌, str_eq, codes, codes_eq, Map,
}
use toggle_web_baker.Common.Int.{ℤ}
use toggle_web_baker.Domain.WatchSchedule.{decimal}

-- `run_as_user` is a pointer in Go: `none` where the key is omitted.
pub record NodeImage : Type 0 where
  pub image : String
  pub run_as_user : Option ℤ
  pub home : String

abbrev pub default_node_home : String
default_node_home = "/work"

-- `home` is empty where no HOME is injected.
pub record ResolvedPhase : Type 0 where
  pub image : String
  pub run_as_user : Option ℤ
  pub home : String

-- `nodeImages[strconv.Itoa(major)]`
abbrev pub at_major : Map NodeImage → ℕ → Option NodeImage
at_major [] major = none
at_major ((key, ni) ∷ images) major =
    if codes_eq (codes key) (decimal major) then some ni else at_major images major

unfoldable pub lookup_node_image : Map NodeImage → ℕ → Option NodeImage
lookup_node_image node_images node_version =
    if node_version == 0 then none else at_major node_images node_version

abbrev pub managed : Option NodeImage → String → ResolvedPhase
managed none clone_fallback = record { image = clone_fallback; run_as_user = none; home = "" }
managed (some ni) clone_fallback = record {
  image = ni.image;
  run_as_user = ni.run_as_user;
  home = if str_eq ni.home "" then default_node_home else ni.home;
}

unfoldable pub resolve_phase : String → Option ℤ → ℕ → Map NodeImage → String → ResolvedPhase
unfolding lookup_node_image
resolve_phase user_image user_run_as_user node_version node_images clone_fallback =
    if str_eq user_image ""
    then managed (lookup_node_image node_images node_version) clone_fallback
    else record { image = user_image; run_as_user = user_run_as_user; home = "" }
