-- ===== src/Controller/Sizes.antt =====
-- internal/controller/measure.go: a measured size is merged into the status.
pub mod Growth
use toggle_web_baker.Common.{
  ℕ, String, Bool, true, false, Option, none, some, if◌then◌else◌, Map, lookup, insert,
}
use toggle_web_baker.Common.Int.{ℤ, ◌-ℤ◌, eqb_ℤ}
use toggle_web_baker.Api.Status.{StorageStatus}
use toggle_web_baker.Api.App.{App}

-- The size and the time of the measurement, once the delta is recorded.
abbrev pub measured : ℕ → StorageStatus → String → ℤ → StorageStatus
measured now storage key bytes = record storage {
  sizes = insert key bytes storage.sizes;
  measured_at = some now;
}

-- The size that was there before, if any: the same, or another.
abbrev pub over_size : ℕ → StorageStatus → String → ℤ → Option ℤ → StorageStatus
over_size now storage key bytes none = measured now storage key bytes
over_size now storage key bytes (some prev) =
    if eqb_ℤ prev bytes then storage else record (measured now storage key bytes) {
      last_run_deltas = insert key (bytes -ℤ prev) storage.last_run_deltas;
    }

unfoldable pub record_size : ℕ → StorageStatus → String → ℤ → StorageStatus
record_size now storage key bytes = over_size now storage key bytes (lookup key storage.sizes)
