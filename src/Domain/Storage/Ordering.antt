-- ===== src/Domain/Storage/Ordering.antt =====
-- When the thresholds of internal/domain/storage.go are accepted.
use toggle_web_baker.Common.{String, ◌≡◌, ◌≢◌, ◌↔◌, ok, >>=-eq-ok, arith, ◌+◌, ◌<◌}
use toggle_web_baker.Common.Int.{ℤ, pos, pos_part, neg_part}
use toggle_web_baker.Domain.Storage.{
  VolumeThresholds, StorageConfig, validate_volume, validate_storage,
}

infix 50 ◌<ℤ◌
abbrev pub ◌<ℤ◌ : ℤ → ℤ → Type 0
a <ℤ b = pos_part a + neg_part b < pos_part b + neg_part a

-- Of two thresholds that are set, the first lies below the second.
abbrev pub Before : ℤ → ℤ → Type 0
Before a b = a ≢ pos 0 → b ≢ pos 0 → a <ℤ b

-- cleanup < alert < cap, over those that are set.
pub record IsOrdered (v : VolumeThresholds) : Type 0 where
  pub cleanup_alert : Before v.cleanup_bytes v.alert_bytes
  pub alert_cap : Before v.alert_bytes v.cap_bytes
  pub cleanup_cap : Before v.cleanup_bytes v.cap_bytes

-- A volume is accepted only where its thresholds are ordered.
pub validate_volume-IsOrdered :
    (name : String) (v : VolumeThresholds) → validate_volume name v ≡ ok tt → IsOrdered v
unfolding validate_volume
validate_volume-IsOrdered name v h = ground arith

pub IsOrdered-validate_volume :
    (name : String) (v : VolumeThresholds) → IsOrdered v → validate_volume name v ≡ ok tt
unfolding validate_volume
IsOrdered-validate_volume name v h = ground arith

-- A storage configuration is accepted exactly when the thresholds of each of its volumes that are
-- set are ordered, cleanup below alert below cap.
pub validate_storage-IsOrdered :
    (cfg : StorageConfig)
    → (validate_storage cfg ≡ ok tt)
      ↔ (IsOrdered cfg.cache × IsOrdered cfg.data_cache × IsOrdered cfg.output)
unfolding validate_storage
validate_storage-IsOrdered cfg = (forth, back)
  where
    forth :
        validate_storage cfg ≡ ok tt
        → IsOrdered cfg.cache × IsOrdered cfg.data_cache × IsOrdered cfg.output
    forth h =
        let (_, a, h') = >>=-eq-ok (validate_volume "cache" cfg.cache) _ h in
        let (_, b, h'') = >>=-eq-ok (validate_volume "dataCache" cfg.data_cache) _ h' in
        let (_, c, _) = >>=-eq-ok (validate_volume "output" cfg.output) _ h'' in
        (
          validate_volume-IsOrdered "cache" cfg.cache a,
          validate_volume-IsOrdered "dataCache" cfg.data_cache b,
          validate_volume-IsOrdered "output" cfg.output c,
        )

    back :
        IsOrdered cfg.cache × IsOrdered cfg.data_cache × IsOrdered cfg.output
        → validate_storage cfg ≡ ok tt
    back (a, b, c) = rw (
      IsOrdered-validate_volume "cache" cfg.cache a,
      IsOrdered-validate_volume "dataCache" cfg.data_cache b,
      IsOrdered-validate_volume "output" cfg.output c,
    )
