-- ===== src/Console/Totals.antt =====
-- console/internal/view/model.go: the storage of an App by category, and of all Apps together.
pub mod Sums
use toggle_web_baker.Common.{ℕ, String, List, [], ◌∷◌, if◌then◌else◌, str_eq}
use toggle_web_baker.Common.Int.{ℤ, pos, ◌+ℤ◌}
use toggle_web_baker.Console.Human.{humanize_bytes}
use toggle_web_baker.Console.Model.{App, StorageVolume}
use Prim.Native.String.{◌++◌ as str_append}

pub record StorageTotals : Type 0 where
  pub cache : ℤ
  pub data_cache : ℤ
  pub output_total : ℤ
  pub output_active : ℤ
  pub grand : ℤ

abbrev pub no_totals : StorageTotals
no_totals = record {
  cache = pos 0;
  data_cache = pos 0;
  output_total = pos 0;
  output_active = pos 0;
  grand = pos 0;
}

unfoldable pub with_volume : StorageTotals → StorageVolume → StorageTotals
with_volume t v =
    if str_eq v.name "cache"
    then record t { cache = v.bytes }
    else if str_eq v.name "dataCache"
    then record t { data_cache = v.bytes }
    else if str_eq v.name "outputTotal"
    then record t { output_total = v.bytes }
    else if str_eq v.name "output"
    then record t { output_active = v.bytes }
    else t

-- The loop over the volumes.
unfoldable pub by_name : StorageTotals → List StorageVolume → StorageTotals
unfolding with_volume
by_name t [] = t
by_name t (v ∷ vs) = by_name (with_volume t v) vs

-- The active release is part of the output, and is not counted twice.
unfoldable pub with_grand : StorageTotals → StorageTotals
unfolding ◌+ℤ◌
with_grand t = record t { grand = t.cache +ℤ t.data_cache +ℤ t.output_total }

unfoldable pub storage_totals : App → StorageTotals
unfolding by_name with_grand
storage_totals a = with_grand (by_name no_totals a.storage.volumes)

unfoldable pub plus_totals : StorageTotals → StorageTotals → StorageTotals
unfolding ◌+ℤ◌
plus_totals t at = record {
  cache = t.cache +ℤ at.cache;
  data_cache = t.data_cache +ℤ at.data_cache;
  output_total = t.output_total +ℤ at.output_total;
  output_active = t.output_active +ℤ at.output_active;
  grand = t.grand;
}

unfoldable pub sum_totals : StorageTotals → List App → StorageTotals
unfolding storage_totals plus_totals
sum_totals t [] = t
sum_totals t (a ∷ apps) = sum_totals (plus_totals t (storage_totals a)) apps

unfoldable pub aggregate_storage : List App → StorageTotals
unfolding sum_totals with_grand
aggregate_storage apps = with_grand (sum_totals no_totals apps)

unfoldable pub storage_tooltip : (ℕ → ℕ → String) → App → String
unfolding storage_totals humanize_bytes
storage_tooltip one_decimal a =
    let t = storage_totals a in
    let human = humanize_bytes one_decimal in
    str_append "Cache " (
      str_append (human t.cache) (
        str_append " · Data cache " (
          str_append (human t.data_cache) (
            str_append " · Output " (
              str_append (human t.output_total)
                (str_append " (active " (str_append (human t.output_active) ")")))))))
