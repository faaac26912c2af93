-- ===== src/Domain/Storage/State.antt =====
-- The storage badge of internal/domain/storage.go, whatever the order in which Go goes through
-- the map of sizes.
use toggle_web_baker.Common.{
  String, ◌≡◌, refl, ap, ◌∙◌, ◌↔◌, Bool, true, false, ◌||◌, none, some, [], ◌∷◌, arith, Map, In,
  here, there, any, Bool-cases, inl, inr, Option-cases,
}
use toggle_web_baker.Common.Int.{ℤ, pos, ◌≤ℤ◌}
use toggle_web_baker.Domain.Storage.{
  not_measured, alert, critical, VolumeThresholds, StorageConfig, thresholds_for_key, crosses,
  flags, classify, evaluate_threshold_state,
}
use toggle_web_baker.Domain.Storage.Volumes.{VolumeOf, thresholds-VolumeOf, VolumeOf-thresholds}

-- An entry of `sizes` whose key has thresholds and whose size crosses the one that is asked for.
abbrev pub over : (VolumeThresholds → ℤ) → StorageConfig → String × ℤ → Bool
over f cfg (key, size) = elim (thresholds_for_key key cfg) [
  | none ↦ false
  | some v ↦ crosses (f v) size
]

abbrev pub cap : VolumeThresholds → ℤ
cap v = v.cap_bytes

abbrev pub warning : VolumeThresholds → ℤ
warning v = v.alert_bytes

flags-any :
    (cfg : StorageConfig) (c w : Bool) (sizes : Map ℤ)
    → flags cfg c w sizes ≡ (c || any (over cap cfg) sizes, w || any (over warning cfg) sizes)
flags-any cfg c w [] = ground arith
flags-any cfg c w ((key, size) ∷ sizes) = elim (Option-cases (thresholds_for_key key cfg)) [
  | inl e ↦ rw (e, flags, over) (flags-any cfg c w sizes)
  | inr (v, e) ↦
      rw (e, flags, over)
        (flags-any cfg (c || crosses v.cap_bytes size) (w || crosses v.alert_bytes size) sizes
          ∙ ground arith)
]

-- The state of a volume map that has entries.
pub evaluate_threshold_state-any :
    (e : String × ℤ) (sizes : Map ℤ) (cfg : StorageConfig)
    → evaluate_threshold_state (e ∷ sizes) cfg
      ≡ classify (any (over cap cfg) (e ∷ sizes), any (over warning cfg) (e ∷ sizes))
unfolding evaluate_threshold_state
evaluate_threshold_state-any e sizes cfg = ap classify (flags-any cfg false false (e ∷ sizes))

any-In :
    (p : String × ℤ → Bool) (sizes : Map ℤ)
    → any p sizes ≡ true
    → (e : String × ℤ) × In e sizes × (p e ≡ true)
any-In p [] h = cc
any-In p (e ∷ sizes) h = elim (Bool-cases (p e)) [
  | inl t ↦ (e, here, t)
  | inr f ↦
      let r : ((e' : String × ℤ) × In e' sizes × (p e' ≡ true)) = any-In p sizes (ground arith) in
      (r.0, there r.1, r.2)
]

In-any :
    (p : String × ℤ → Bool) {e : String × ℤ} {sizes : Map ℤ}
    → In e sizes
    → p e ≡ true
    → any p sizes ≡ true
In-any p here h = rw h refl
In-any p (there {x} i) h = rw (In-any p i h) (ground arith)

-- The size is at or over the threshold of its volume, and the threshold is set.
abbrev pub Over : (VolumeThresholds → ℤ) → StorageConfig → String × ℤ → Type 0
Over f cfg (key, size) =
    (v : VolumeThresholds) × VolumeOf cfg key v × (pos 1 ≤ℤ f v) × (f v ≤ℤ size)

over-Over :
    (f : VolumeThresholds → ℤ) (cfg : StorageConfig) (e : String × ℤ)
    → over f cfg e ≡ true
    → Over f cfg e
over-Over f cfg (key, size) h = elim (Option-cases (thresholds_for_key key cfg)) [
  | inl n ↦ cc (rw (n, over) at h)
  | inr (v, e) ↦
      let reached : crosses (f v) size ≡ true = rw (e, over) at h in
      (v, thresholds-VolumeOf key cfg v e, ground (arith, reached), ground (arith, reached))
]

Over-over :
    (f : VolumeThresholds → ℤ) (cfg : StorageConfig) (e : String × ℤ)
    → Over f cfg e
    → over f cfg e ≡ true
Over-over f cfg (key, size) (v, of, set, reached) =
    rw (VolumeOf-thresholds key cfg v of, over) (ground (arith, set, reached))

-- Some size is at or over the threshold that is asked for, where that is set.
abbrev pub Crossed : (VolumeThresholds → ℤ) → StorageConfig → Map ℤ → Type 0
Crossed f cfg sizes = (e : String × ℤ) × In e sizes × Over f cfg e

any-Crossed :
    (f : VolumeThresholds → ℤ) (cfg : StorageConfig) (sizes : Map ℤ)
    → any (over f cfg) sizes ≡ true
    → Crossed f cfg sizes
any-Crossed f cfg sizes h =
    let (e, i, o) = any-In (over f cfg) sizes h in (e, i, over-Over f cfg e o)

Crossed-any :
    (f : VolumeThresholds → ℤ) (cfg : StorageConfig) (sizes : Map ℤ)
    → Crossed f cfg sizes
    → any (over f cfg) sizes ≡ true
Crossed-any f cfg sizes (e, i, o) = In-any (over f cfg) i (Over-over f cfg e o)

-- The storage state is Critical exactly when some size is at or over the cap of its volume, where
-- that cap is set. The volume of a size is the output, the data cache or the cache, the first whose
-- word (output, data, cache) is in the key, and a key with the word total has none.
pub critical_iff :
    (sizes : Map ℤ) (cfg : StorageConfig)
    → (evaluate_threshold_state sizes cfg ≡ critical) ↔ Crossed cap cfg sizes
unfolding evaluate_threshold_state
critical_iff [] cfg = (λ h. cc, λ c. elim c.1 [ ])
critical_iff (e ∷ sizes) cfg = (
  λ h. any-Crossed cap cfg (e ∷ sizes) (ground (arith, evaluate_threshold_state-any e sizes cfg)),
  λ c. evaluate_threshold_state-any e sizes cfg ∙ rw (Crossed-any cap cfg (e ∷ sizes) c) refl,
)

-- The storage state is Alert exactly when no size is at or over the cap of its volume, and some size
-- is at or over its alert threshold, each where it is set.
pub alert_iff :
    (sizes : Map ℤ) (cfg : StorageConfig)
    → (evaluate_threshold_state sizes cfg ≡ alert)
      ↔ ((¬ Crossed cap cfg sizes) × Crossed warning cfg sizes)
unfolding evaluate_threshold_state
alert_iff [] cfg = (λ h. cc, λ c. elim c.1.1 [ ])
alert_iff (e ∷ sizes) cfg = (
  λ h. (
    λ c. cc (h, (critical_iff (e ∷ sizes) cfg).1 c),
    any-Crossed warning cfg (e ∷ sizes) (ground (arith, evaluate_threshold_state-any e sizes cfg)),
  ),
  λ c. elim (Bool-cases (any (over cap cfg) (e ∷ sizes))) [
    | inl t ↦ absurd (c.0 (any-Crossed cap cfg (e ∷ sizes) t))
    | inr f ↦
        evaluate_threshold_state-any e sizes cfg
        ∙ rw (f, Crossed-any warning cfg (e ∷ sizes) c.1) refl
  ],
)

-- Not measured exactly when there is no size at all.
pub not_measured_iff :
    (sizes : Map ℤ) (cfg : StorageConfig)
    → (evaluate_threshold_state sizes cfg ≡ not_measured) ↔ (sizes ≡ [])
unfolding evaluate_threshold_state
not_measured_iff [] cfg = (λ h. refl, λ h. refl)
not_measured_iff (e ∷ sizes) cfg =
    (λ h. ground (arith, evaluate_threshold_state-any e sizes cfg), λ h. cc)
