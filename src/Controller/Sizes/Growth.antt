-- ===== src/Controller/Sizes/Growth.antt =====
-- internal/controller/measure.go: the recorded size and its growth.
use toggle_web_baker.Common.{
  ℕ, ◌≡◌, refl, ap, ◌∙◌, inl, inr, String, false, Option, none, some, str_eq, lookup, lookup-insert,
  lookup-insert_self, Bool-cases,
}
use toggle_web_baker.Common.Int.{ℤ, ◌-ℤ◌, eqb_ℤ, eqb_ℤ→eq, eqb_ℤ-self}
use toggle_web_baker.Api.Status.{StorageStatus}
use toggle_web_baker.Controller.Sizes.{over_size, record_size}

over_size-size :
    (now : ℕ) (storage : StorageStatus) (key : String) (bytes : ℤ) (o : Option ℤ)
    → lookup key storage.sizes ≡ o
    → lookup key (over_size now storage key bytes o).sizes ≡ some bytes
over_size-size now storage key bytes none h = lookup-insert_self key bytes storage.sizes
over_size-size now storage key bytes (some prev) h = elim (Bool-cases (eqb_ℤ prev bytes)) [
  | inl y ↦ rw y (h ∙ ap some (eqb_ℤ→eq prev bytes y))
  | inr n ↦ rw n (lookup-insert_self key bytes storage.sizes)
]

-- What was measured is what is read under its key.
pub record_size-size :
    (now : ℕ) (storage : StorageStatus) (key : String) (bytes : ℤ)
    → lookup key (record_size now storage key bytes).sizes ≡ some bytes
unfolding record_size
record_size-size now storage key bytes =
    over_size-size now storage key bytes (lookup key storage.sizes) refl

over_size-same :
    (now : ℕ) (storage : StorageStatus) (key : String) (bytes : ℤ)
    → over_size now storage key bytes (some bytes) ≡ storage
over_size-same now storage key bytes = rw (eqb_ℤ-self bytes)

-- A result that is observed again, at whatever later time, changes nothing: neither the delta nor the
-- time of the measurement.
pub record_size-again :
    (now later : ℕ) (storage : StorageStatus) (key : String) (bytes : ℤ)
    → record_size later (record_size now storage key bytes) key bytes
      ≡ record_size now storage key bytes
unfolding record_size
record_size-again now later storage key bytes =
    ap (over_size later (record_size now storage key bytes) key bytes)
      (record_size-size now storage key bytes)
    ∙ over_size-same later (record_size now storage key bytes) key bytes

-- A size that changed from `prev` has its growth recorded, which may be negative, and the size and
-- the growth under any other key stay.
pub record_size-growth :
    (now : ℕ) (storage : StorageStatus) (key other : String) (bytes prev : ℤ)
    → lookup key storage.sizes ≡ some prev
    → eqb_ℤ prev bytes ≡ false
    → str_eq key other ≡ false
    → (lookup key (record_size now storage key bytes).last_run_deltas ≡ some (bytes -ℤ prev))
      × (lookup other (record_size now storage key bytes).sizes ≡ lookup other storage.sizes)
      × (lookup other (record_size now storage key bytes).last_run_deltas
          ≡ lookup other storage.last_run_deltas)
unfolding record_size
record_size-growth now storage key other bytes prev h n d = (
  rw (h, n) (lookup-insert_self key (bytes -ℤ prev) storage.last_run_deltas),
  rw (h, n, lookup-insert key other bytes storage.sizes, d),
  rw (h, n, lookup-insert key other (bytes -ℤ prev) storage.last_run_deltas, d),
)
