-- ===== src/Domain/Registry.antt =====
-- internal/domain/registry.go: the allowlist of phase images. An index past the end of a text
-- panics in Go, and is `none` here.
pub mod Boundary
use toggle_web_baker.Common.{
  ℕ, zero, suc, String, Bool, true, false, ◌||◌, ◌==◌, Option, none, some, List, [], ◌∷◌, map,
  if◌then◌else◌, not, length, Codes, codes, codes_eq, has_prefix, Result, ok, err,
}

pub record PhaseImage : Type 0 where
  pub phase : String
  pub image : String

-- `fmt.Errorf("%s image %q is not on the registry allowlist")`, or the panic of an index.
pub data RegistryError : Type 0 where
  not_allowed : String → String → RegistryError
  index_out_of_range : RegistryError

-- `isImageBoundary(c)` at one of the bytes `/`, `:` and `@`.
unfoldable pub is_image_boundary : ℕ → Bool
is_image_boundary c = c == b'/' || c == b':' || c == b'@'

-- `s[i]`
abbrev pub at : Codes → ℕ → Option ℕ
at [] i = none
at (c ∷ s) zero = some c
at (c ∷ s) (suc i) = at s i

-- `s[len(s)-1]`
abbrev pub last : Codes → Option ℕ
last [] = none
last (c ∷ []) = some c
last (c ∷ d ∷ s) = last (d ∷ s)

abbrev pub boundary_of : Option ℕ → Option Bool
boundary_of none = none
boundary_of (some c) = some (is_image_boundary c)

-- `a || b` of Go: `b` is not evaluated where `a` holds.
abbrev pub or_else : Option Bool → Option Bool → Option Bool
or_else none b = none
or_else (some true) b = some true
or_else (some false) b = b

unfoldable pub image_allowed : List Codes → Codes → Option Bool
image_allowed [] image = some false
image_allowed (prefix ∷ allowlist) image =
    let rest = image_allowed allowlist image in
    if codes_eq prefix []
    then rest
    else if codes_eq image prefix
    then some true
    else if not (has_prefix image prefix)
    then rest
    else or_else (or_else (boundary_of (last prefix)) (boundary_of (at image (length prefix)))) rest

-- The outcome for one image: an error unless the image is on the allowlist.
abbrev pub reject :
    PhaseImage → Option Bool → Result RegistryError (Unit {0}) → Result RegistryError (Unit {0})
reject pi none rest = err index_out_of_range
reject pi (some false) rest = err (not_allowed pi.phase pi.image)
reject pi (some true) rest = rest

unfoldable pub check_images_allowed :
    List String → List PhaseImage → Result RegistryError (Unit {0})
unfolding image_allowed
check_images_allowed allowlist [] = ok tt
check_images_allowed allowlist (pi ∷ images) =
    reject pi (image_allowed (map codes allowlist) (codes pi.image))
      (check_images_allowed allowlist images)
