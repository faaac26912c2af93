-- ===== src/Domain/Storage.antt =====
-- internal/domain/storage.go: the thresholds of the storage volumes.
pub mod Ordering
pub mod Volumes
pub mod State
use toggle_web_baker.Common.{
  String, Bool, true, false, ◌&&◌, ◌||◌, Option, none, some, List, [], ◌∷◌, if◌then◌else◌, codes,
  contains, to_lower, Result, ok, err, ◌>>◌, ◌>>=◌, Map,
}
use toggle_web_baker.Common.Int.{ℤ, pos, ltb_ℤ, leb_ℤ, eqb_ℤ}

-- The texts "", "OK", "Alert" and "Critical" of status.storage.thresholdState.
pub data ThresholdState : Type 0 where
  not_measured all_ok alert critical : ThresholdState

-- Bytes; a zero threshold is not set.
pub record VolumeThresholds : Type 0 where
  pub cleanup_bytes : ℤ
  pub alert_bytes : ℤ
  pub cap_bytes : ℤ

pub record StorageConfig : Type 0 where
  pub cache : VolumeThresholds
  pub data_cache : VolumeThresholds
  pub output : VolumeThresholds

pub record NamedVolume : Type 0 where
  pub name : String
  pub thresholds : VolumeThresholds

abbrev pub volumes : StorageConfig → List NamedVolume
volumes cfg =
    record { name = "cache"; thresholds = cfg.cache }
    ∷ record { name = "dataCache"; thresholds = cfg.data_cache }
    ∷ record { name = "output"; thresholds = cfg.output }
    ∷ []

-- `storage.<volume>: <label> (<value>) must be < <label> (<value>)`
pub record StorageError : Type 0 where
  pub volume : String
  pub low_label : String
  pub low : ℤ
  pub high_label : String
  pub high : ℤ

-- The loop of `validateVolume`: the previous threshold that is set, and those to come.
abbrev pub validate_from :
    String → Option (String × ℤ) → List (String × ℤ) → Result StorageError (Unit {0})
validate_from name prev [] = ok tt
validate_from name none ((label, val) ∷ rest) =
    validate_from name (if eqb_ℤ val (pos 0) then none else some (label, val)) rest
validate_from name (some (low_label, low)) ((label, val) ∷ rest) =
    let skipped = validate_from name (some (low_label, low)) rest in
    let next = validate_from name (some (label, val)) rest in
    if eqb_ℤ val (pos 0)
    then skipped
    else if leb_ℤ val low
    then err
        (record { volume = name; low_label = low_label; low = low; high_label = label; high = val })
    else next

unfoldable pub validate_volume : String → VolumeThresholds → Result StorageError (Unit {0})
validate_volume name v = validate_from name none (
    ("cleanupThreshold", v.cleanup_bytes)
    ∷ ("alertThreshold", v.alert_bytes)
    ∷ ("releaseSizeCap", v.cap_bytes)
    ∷ [])

validate_all : List NamedVolume → Result StorageError (Unit {0})
validate_all [] = ok tt
validate_all (v ∷ vs) = validate_volume v.name v.thresholds >> validate_all vs

unfoldable pub validate_storage : StorageConfig → Result StorageError (Unit {0})
unfolding validate_all
validate_storage cfg = validate_all (volumes cfg)

unfoldable pub thresholds_for_key : String → StorageConfig → Option VolumeThresholds
thresholds_for_key key cfg =
    let k = to_lower (codes key) in
    if contains k (codes "total")
    then none
    else if contains k (codes "output")
    then some cfg.output
    else if contains k (codes "data")
    then some cfg.data_cache
    else if contains k (codes "cache")
    then some cfg.cache
    else none

-- `size` is at or over the threshold, which is set.
abbrev pub crosses : ℤ → ℤ → Bool
crosses threshold size = ltb_ℤ (pos 0) threshold && leb_ℤ threshold size

-- The flags `critical` and `alert` after the entries of `sizes` have been gone through.
abbrev pub flags : StorageConfig → Bool → Bool → Map ℤ → Bool × Bool
flags cfg crit warn [] = (crit, warn)
flags cfg crit warn ((key, size) ∷ sizes) = elim (thresholds_for_key key cfg) [
  | none ↦ flags cfg crit warn sizes
  | some v ↦ flags cfg (crit || crosses v.cap_bytes size) (warn || crosses v.alert_bytes size) sizes
]

abbrev pub classify : Bool × Bool → ThresholdState
classify (true, _) = critical
classify (false, true) = alert
classify (false, false) = all_ok

unfoldable pub evaluate_threshold_state : Map ℤ → StorageConfig → ThresholdState
evaluate_threshold_state [] cfg = not_measured
evaluate_threshold_state (e ∷ sizes) cfg = classify (flags cfg false false (e ∷ sizes))
