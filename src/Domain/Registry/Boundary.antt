-- ===== src/Domain/Registry/Boundary.antt =====
-- What the allowlist of internal/domain/registry.go admits.
use toggle_web_baker.Common.{
  ℕ, suc, ◌≡◌, refl, ◌≢◌, ◌⊎◌, inl, inr, ◌↔◌, true, false, ◌||◌, some, List, [], ◌∷◌, ◌++◌, map, ap,
  ◌∙◌, length, Codes, codes, codes_eq, has_prefix, has_prefix_split, has_prefix-append, codes_eq→eq,
  codes_eq_self, ok, In, here, there, All, Bool-cases, String, arith,
}
use mathlib.Core.List.{append-nil}
use mathlib.Core.Option.{some-injective}
use toggle_web_baker.Domain.Registry.{
  PhaseImage, is_image_boundary, at, last, or_else, image_allowed, reject, check_images_allowed,
}

-- One of the three bytes after which an image's path, tag or digest begins.
abbrev pub IsBoundary : ℕ → Type 0
IsBoundary c = (c ≡ b'/') ⊎ (c ≡ b':') ⊎ (c ≡ b'@')

is_image_boundary_iff : (c : ℕ) → (is_image_boundary c ≡ true) ↔ IsBoundary c
unfolding is_image_boundary
is_image_boundary_iff c = ground arith

either-IsBoundary_iff :
    (c d : ℕ) → (is_image_boundary c || is_image_boundary d ≡ true) ↔ (IsBoundary c ⊎ IsBoundary d)
either-IsBoundary_iff c d = ground (arith, is_image_boundary_iff c, is_image_boundary_iff d)

-- An entry admits an image.
pub data Permits (prefix image : Codes) : Type 0 where
  itself : prefix ≢ [] → image ≡ prefix → Permits prefix image
  below :
      (start : Codes) (c d : ℕ) (rest : Codes)
      → prefix ≡ start ++ c ∷ []
      → image ≡ prefix ++ d ∷ rest
      → IsBoundary c ⊎ IsBoundary d
      → Permits prefix image

at-append : (p : Codes) (d : ℕ) (r : Codes) → at (p ++ d ∷ r) (length p) ≡ some d
at-append [] d r = refl
at-append (c ∷ p) d r = at-append p d r

last-append : (start : Codes) (c : ℕ) → last (start ++ c ∷ []) ≡ some c
last-append [] c = refl
last-append (d ∷ []) c = refl
last-append (d ∷ e ∷ start) c = last-append (e ∷ start) c

-- A text with a last byte, split before it.
last_split : (p : Codes) (c : ℕ) → last p ≡ some c → (start : Codes) × (p ≡ start ++ c ∷ [])
last_split [] c h = cc h
last_split (d ∷ []) c h = ([], ap (λ e. e ∷ []) (some-injective d c h))
last_split (d ∷ e ∷ p) c h = let (start, q) = last_split (e ∷ p) c h in (d ∷ start, ap (◌∷◌ d) q)

last-some : (c : ℕ) (p : Codes) → (e : ℕ) × (last (c ∷ p) ≡ some e)
last-some c [] = (c, refl)
last-some c (d ∷ p) = last-some d p

module _ (c : ℕ) (p : Codes) (ps : List Codes) (image : Codes) where
  abbrev Entry : Type 0
  Entry =
      (Permits (c ∷ p) image × (image_allowed ((c ∷ p) ∷ ps) image ≡ some true))
      ⊎ ((¬ Permits (c ∷ p) image) × (image_allowed ((c ∷ p) ∷ ps) image ≡ image_allowed ps image))

  entry_same : codes_eq image (c ∷ p) ≡ true → Entry
  unfolding image_allowed
  entry_same e = inl (itself (λ h. cc h) (codes_eq→eq image (c ∷ p) e), rw e refl)

  not-itself : codes_eq image (c ∷ p) ≡ false → image ≢ c ∷ p
  not-itself e h = cc (ap (λ s. codes_eq s (c ∷ p)) h, codes_eq_self (c ∷ p))

  entry_apart : codes_eq image (c ∷ p) ≡ false → has_prefix image (c ∷ p) ≡ false → Entry
  unfolding image_allowed
  entry_apart e h = inr (no_permit, rw (e, h) refl)
    where
      no_permit : ¬ Permits (c ∷ p) image
      no_permit (itself _ s) = not-itself e s
      no_permit (below start a d r _ s _) =
          cc (ap (λ t. has_prefix t (c ∷ p)) s, has_prefix-append (c ∷ p) (d ∷ r), h)

  entry_value :
      (a d : ℕ)
      → codes_eq image (c ∷ p) ≡ false
      → has_prefix image (c ∷ p) ≡ true
      → at image (suc (length p)) ≡ some d
      → last (c ∷ p) ≡ some a
      → image_allowed ((c ∷ p) ∷ ps) image
        ≡ or_else (some (is_image_boundary a || is_image_boundary d)) (image_allowed ps image)
  unfolding image_allowed
  entry_value a d e h s l =
      rw (e, h, s, l)
        (elim (Bool-cases (is_image_boundary a)) [ inl b ↦ rw b refl | inr b ↦ rw b refl ])

  entry_below :
      (a d : ℕ) (r : Codes)
      → codes_eq image (c ∷ p) ≡ false
      → has_prefix image (c ∷ p) ≡ true
      → image ≡ (c ∷ p) ++ d ∷ r
      → last (c ∷ p) ≡ some a
      → Entry
  entry_below a d r e h s l = elim (Bool-cases (is_image_boundary a || is_image_boundary d)) [
    | inl b ↦
        let (start, q) = last_split (c ∷ p) a l in
        inl (
          below start a d r q s ((either-IsBoundary_iff a d).0 b),
          entry_value a d e h place l ∙ rw b refl,
        )
    | inr b ↦ inr (no_permit b, entry_value a d e h place l ∙ rw b refl)
  ]
    where
      place : at image (suc (length p)) ≡ some d
      place = rw s (at-append (c ∷ p) d r)

      no_permit : is_image_boundary a || is_image_boundary d ≡ false → ¬ Permits (c ∷ p) image
      no_permit b (itself _ s') = not-itself e s'
      no_permit b (below start a' d' r' q s' b') = cc (
        place,
        ap (λ t. at t (suc (length p))) s',
        at-append (c ∷ p) d' r',
        l,
        ap last q,
        last-append start a',
        b,
        (either-IsBoundary_iff a' d').1 b',
      )

  entry_split :
      (r : Codes)
      → codes_eq image (c ∷ p) ≡ false
      → has_prefix image (c ∷ p) ≡ true
      → image ≡ (c ∷ p) ++ r
      → Entry
  entry_split [] e h s = absurd (not-itself e (s ∙ append-nil (c ∷ p)))
  entry_split (d ∷ r) e h s = let (a, l) = last-some c p in entry_below a d r e h s l

  entry_cases : Entry
  entry_cases = elim (Bool-cases (codes_eq image (c ∷ p))) [
    | inl e ↦ entry_same e
    | inr e ↦ elim (Bool-cases (has_prefix image (c ∷ p))) [
      | inl h ↦ let (r, s) = has_prefix_split image (c ∷ p) h in entry_split r e h s
      | inr h ↦ entry_apart e h
    ]
  ]

abbrev pub Permitted : List Codes → Codes → Type 0
Permitted allowlist image = (p : Codes) × In p allowlist × Permits p image

-- By induction on the allowlist, with the refusals entry by entry.
image_allowed_cases :
    (allowlist : List Codes) (image : Codes)
    → ((image_allowed allowlist image ≡ some true) × Permitted allowlist image)
      ⊎ ((image_allowed allowlist image ≡ some false)
          × ((p : Codes) → In p allowlist → ¬ Permits p image))
unfolding image_allowed
image_allowed_cases [] image = inr (refl, none_in)
  where
    none_in : (p : Codes) → In p [] → ¬ Permits p image
    none_in p i = elim i [ ]
image_allowed_cases ([] ∷ ps) image = elim (image_allowed_cases ps image) [
  | inl (e, w) ↦ inl (e, (w.0, there w.1, w.2))
  | inr (e, f) ↦ inr (e, skip f)
]
  where
    skip :
        ((p : Codes) → In p ps → ¬ Permits p image)
        → (p : Codes) → In p ([] ∷ ps)
        → ¬ Permits p image
    skip f p here (itself n _) = n refl
    skip f p here (below start c _ _ q _ _) = cc (ap last q, last-append start c)
    skip f p (there i) q = f p i q
image_allowed_cases ((c ∷ p) ∷ ps) image = elim (entry_cases c p ps image) [
  | inl (q, e) ↦ inl (e, (c ∷ p, here, q))
  | inr (n, e) ↦ later (image_allowed_cases ps image) n e
]
  where
    all_but :
        (¬ Permits (c ∷ p) image)
        → ((q : Codes) → In q ps → ¬ Permits q image)
        → (q : Codes) → In q ((c ∷ p) ∷ ps)
        → ¬ Permits q image
    all_but n f q here = n
    all_but n f q (there i) = f q i

    later :
        ((image_allowed ps image ≡ some true) × Permitted ps image)
          ⊎ ((image_allowed ps image ≡ some false) × ((q : Codes) → In q ps → ¬ Permits q image))
        → (¬ Permits (c ∷ p) image)
        → image_allowed ((c ∷ p) ∷ ps) image ≡ image_allowed ps image
        → ((image_allowed ((c ∷ p) ∷ ps) image ≡ some true) × Permitted ((c ∷ p) ∷ ps) image)
          ⊎ ((image_allowed ((c ∷ p) ∷ ps) image ≡ some false)
              × ((q : Codes) → In q ((c ∷ p) ∷ ps) → ¬ Permits q image))
    later (inl (v, w)) n e = inl (e ∙ v, (w.0, there w.1, w.2))
    later (inr (v, f)) n e = inr (e ∙ v, all_but n f)

-- The allowlist test never indexes past the end of a text (it always has an answer), and it admits
-- an image exactly when an entry permits it: the entry is not empty, and the image is the entry
-- itself, or continues it and the entry's last byte or the byte after it is one of `/`, `:` and `@`.
pub image_allowed-Permitted :
    (allowlist : List Codes) (image : Codes)
    → ((image_allowed allowlist image ≡ some true) × Permitted allowlist image)
      ⊎ ((image_allowed allowlist image ≡ some false) × ¬ Permitted allowlist image)
image_allowed-Permitted allowlist image = elim (image_allowed_cases allowlist image) [
  | inl (e, w) ↦ inl (e, w)
  | inr (e, f) ↦ inr (e, λ w. f w.0 w.1 w.2)
]

-- Every image of the list is permitted by an entry.
abbrev pub AllPermitted : List String → List PhaseImage → Type 0
AllPermitted allowlist = All (λ pi. Permitted (map codes allowlist) (codes pi.image))

-- The check succeeds only where every image is permitted, and it succeeds wherever they all are.
pub check_images_allowed-AllPermitted :
    (allowlist : List String) (images : List PhaseImage)
    → (check_images_allowed allowlist images ≡ ok tt) ↔ AllPermitted allowlist images
unfolding check_images_allowed
check_images_allowed-AllPermitted allowlist [] = (λ _. tt, λ _. refl)
check_images_allowed-AllPermitted allowlist (pi ∷ images) =
    elim (image_allowed_cases (map codes allowlist) (codes pi.image)) [
      | inl (e, p) ↦
          let rest = check_images_allowed-AllPermitted allowlist images in
          (λ h. (p, rest.0 (rw (e, reject) at h)), λ a. rw e (rest.1 a.1))
      | inr (e, f) ↦ (λ h. cc (rw (e, reject) at h), λ a. absurd (f a.0.0 a.0.1 a.0.2))
    ]
