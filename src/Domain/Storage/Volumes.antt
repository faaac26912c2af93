-- ===== src/Domain/Storage/Volumes.antt =====
-- internal/domain/storage.go: which volume's thresholds are for a key of the sizes.
use toggle_web_baker.Common.{
  String, ◌≡◌, refl, ap, ◌∙◌, ◌↔◌, true, false, some, [], ◌∷◌, ◌++◌, Codes, codes, to_lower,
  contains, has_prefix, has_prefix_split, has_prefix-append, subst, Bool-cases, inl, inr,
}
use mathlib.Core.Option.{some-injective, none-ne-some}
use toggle_web_baker.Domain.Storage.{VolumeThresholds, StorageConfig, thresholds_for_key}

-- The key has this word in it, in letters of any case.
abbrev pub Has : String → String → Type 0
Has key word = (a : Codes) × (b : Codes) × (to_lower (codes key) ≡ a ++ (codes word ++ b))

-- The thresholds that are for a key: those of the first volume whose word is in it. A total has none.
pub data VolumeOf (cfg : StorageConfig) (key : String) : VolumeThresholds → Type 0 where
  of_output : ¬ Has key "total" → Has key "output" → VolumeOf cfg key cfg.output
  of_data_cache :
      ¬ Has key "total" → ¬ Has key "output" → Has key "data" → VolumeOf cfg key cfg.data_cache
  of_cache :
      ¬ Has key "total"
      → ¬ Has key "output"
      → ¬ Has key "data"
      → Has key "cache"
      → VolumeOf cfg key cfg.cache

prefix-contains : (s p : Codes) → has_prefix s p ≡ true → contains s p ≡ true
prefix-contains [] p h = h
prefix-contains (c ∷ s) p h = rw h refl

contains-split :
    (s p : Codes) → contains s p ≡ true → (a : Codes) × (b : Codes) × (s ≡ a ++ (p ++ b))
contains-split [] p h = let (r, e) = has_prefix_split [] p h in ([], r, e)
contains-split (c ∷ s) p h = elim (Bool-cases (has_prefix (c ∷ s) p)) [
  | inl y ↦ let (r, e) = has_prefix_split (c ∷ s) p y in ([], r, e)
  | inr n ↦ let (a, b, e) = contains-split s p (rw n at h) in (c ∷ a, b, ap (◌∷◌ c) e)
]

contains-append : (a p b : Codes) → contains (a ++ (p ++ b)) p ≡ true
contains-append [] p b = prefix-contains (p ++ b) p (has_prefix-append p b)
contains-append (c ∷ a) p b = elim (Bool-cases (has_prefix (c ∷ (a ++ (p ++ b))) p)) [
  | inl y ↦ rw y refl
  | inr n ↦ rw n (contains-append a p b)
]

contains-Has :
    (key word : String) → (contains (to_lower (codes key)) (codes word) ≡ true) ↔ Has key word
contains-Has key word = (
  contains-split (to_lower (codes key)) (codes word),
  λ (a, b, e). ap (λ s. contains s (codes word)) e ∙ contains-append a (codes word) b,
)

Has-not :
    (key word : String) → contains (to_lower (codes key)) (codes word) ≡ false → ¬ Has key word
Has-not key word n h = cc (n, (contains-Has key word).1 h)

not-Has :
    (key word : String) → ¬ Has key word → contains (to_lower (codes key)) (codes word) ≡ false
not-Has key word n = elim (Bool-cases (contains (to_lower (codes key)) (codes word))) [
  | inl y ↦ absurd (n ((contains-Has key word).0 y))
  | inr f ↦ f
]

pub thresholds-VolumeOf :
    (key : String) (cfg : StorageConfig) (v : VolumeThresholds)
    → thresholds_for_key key cfg ≡ some v
    → VolumeOf cfg key v
unfolding thresholds_for_key
thresholds-VolumeOf key cfg v h =
    let has = λ (word : String). contains (to_lower (codes key)) (codes word) in
    let yes = λ (word : String) (y : has word ≡ true). (contains-Has key word).0 y in
    elim (Bool-cases (has "total")) [
      | inl t ↦ absurd (none-ne-some v (rw t at h))
      | inr t ↦ elim (Bool-cases (has "output")) [
        | inl o ↦
            subst (VolumeOf cfg key) (some-injective cfg.output v (rw (t, o) at h))
              (of_output (Has-not key "total" t) (yes "output" o))
        | inr o ↦ elim (Bool-cases (has "data")) [
          | inl d ↦
              subst (VolumeOf cfg key) (some-injective cfg.data_cache v (rw (t, o, d) at h))
                (of_data_cache (Has-not key "total" t) (Has-not key "output" o) (yes "data" d))
          | inr d ↦ elim (Bool-cases (has "cache")) [
            | inl c ↦ subst (VolumeOf cfg key) (some-injective cfg.cache v (rw (t, o, d, c) at h)) (
                of_cache (Has-not key "total" t) (Has-not key "output" o) (Has-not key "data" d)
                  (yes "cache" c))
            | inr c ↦ absurd (none-ne-some v (rw (t, o, d, c) at h))
          ]
        ]
      ]
    ]

pub VolumeOf-thresholds :
    (key : String) (cfg : StorageConfig) (v : VolumeThresholds)
    → VolumeOf cfg key v
    → thresholds_for_key key cfg ≡ some v
unfolding thresholds_for_key
VolumeOf-thresholds key cfg v (of_output t o) =
    rw (not-Has key "total" t, (contains-Has key "output").1 o) refl
VolumeOf-thresholds key cfg v (of_data_cache t o d) =
    rw (not-Has key "total" t, not-Has key "output" o, (contains-Has key "data").1 d) refl
VolumeOf-thresholds key cfg v (of_cache t o d c) =
    rw
      (
        not-Has key "total" t,
        not-Has key "output" o,
        not-Has key "data" d,
        (contains-Has key "cache").1 c,
      )
      refl
