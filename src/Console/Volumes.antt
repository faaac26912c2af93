-- ===== src/Console/Volumes.antt =====
-- console/internal/view/model.go: the rows of the storage volumes with their caps and bars. A map of
-- sizes has one entry for each name, so the sorted rows do not depend on the order of its entries.
use toggle_web_baker.Common.{
  ℕ, String, Bool, true, false, Option, none, some, List, [], ◌∷◌, if◌then◌else◌, str_eq, map, Map,
  Codes, codes, contains, to_lower,
}
use toggle_web_baker.Common.Int.{ℤ, pos, ltb_ℤ, leb_ℤ, eqb_ℤ}
use toggle_web_baker.Common.Order.{sort}
use toggle_web_baker.Console.Value.{Value, as_map, at, as_string, as_int}
use toggle_web_baker.Console.Human.{humanize_bytes, humanize_delta, storage_bar, no_bar}
use toggle_web_baker.Console.Model.{StorageVolume, Storage}

abbrev pub map_or_empty : Option (Map Value) → Map Value
map_or_empty none = []
map_or_empty (some m) = m

unfoldable pub nested_int : Map Value → String → String → ℤ
unfolding as_int
nested_int spec group name = elim (as_map (at group spec)) [
  | none ↦ pos 0
  | some g ↦ as_int (at name g)
]

unfoldable pub first_positive : List ℤ → ℤ
first_positive [] = pos 0
first_positive (v ∷ vals) = let rest = first_positive vals in if ltb_ℤ (pos 0) v then v else rest

abbrev pub cap_of_class : Map Value → Codes → ℤ
unfolding nested_int first_positive
cap_of_class spec k =
    if contains k (codes "total")
    then pos 0
    else if contains k (codes "output")
    then nested_int spec "output" "capBytes"
    else if contains k (codes "data")
    then first_positive
        (nested_int spec "dataCache" "cleanupBytes" ∷ nested_int spec "dataCache" "alertBytes" ∷ [])
    else if contains k (codes "cache")
    then first_positive
        (nested_int spec "cache" "cleanupBytes" ∷ nested_int spec "cache" "alertBytes" ∷ [])
    else pos 0

unfoldable pub cap_for_key : String → Option (Map Value) → ℤ
cap_for_key key none = pos 0
cap_for_key key (some spec) = cap_of_class spec (to_lower (codes key))

unfoldable pub capacity_for_key : String → Map Value → ℤ
unfolding as_int
capacity_for_key key capacities =
    let k = to_lower (codes key) in
    if contains k (codes "output")
    then as_int (at "output" capacities)
    else if contains k (codes "data")
    then as_int (at "dataCache" capacities)
    else if contains k (codes "cache")
    then as_int (at "cache" capacities)
    else pos 0

-- The cap of the spec, or else the capacity of the volume.
unfoldable pub resolved_cap : String → Option (Map Value) → Map Value → ℤ
unfolding cap_for_key capacity_for_key
resolved_cap name spec capacities =
    let cap = cap_for_key name spec in
    if leb_ℤ cap (pos 0) then capacity_for_key name capacities else cap

module _ (one_decimal : ℕ → ℕ → String) (percent : ℤ → ℤ → ℤ) where
  unfoldable pub plain_volume : String → ℤ → ℤ → ℤ → ℤ → StorageVolume
  unfolding humanize_bytes humanize_delta
  plain_volume name bytes delta cap release_count = record {
    name = name;
    bytes = bytes;
    human = humanize_bytes one_decimal bytes;
    delta = humanize_delta one_decimal delta;
    cap = cap;
    cap_human = "";
    bar_pct = pos 0;
    over = false;
    has_bar = false;
    releases = if str_eq name "outputTotal" then release_count else pos 0;
  }

  abbrev pub barred : StorageVolume → ℤ × Bool → StorageVolume
  barred v (pct, over) =
      if eqb_ℤ pct no_bar then v else record v { has_bar = true; bar_pct = pct; over = over }

  unfoldable pub with_bar : StorageVolume → StorageVolume
  unfolding storage_bar humanize_bytes
  with_bar v =
      let capped = record v { cap_human = humanize_bytes one_decimal v.cap } in
      if ltb_ℤ (pos 0) v.cap then barred capped (storage_bar percent v.bytes v.cap) else v

  unfoldable pub volume_row :
      Map Value → Option (Map Value) → Map Value → ℤ → String × Value → StorageVolume
  unfolding as_int resolved_cap plain_volume with_bar
  volume_row deltas spec capacities release_count (name, raw) = with_bar (
      plain_volume name (as_int raw) (as_int (at name deltas)) (resolved_cap name spec capacities)
        release_count)

  unfoldable pub volumes_from : Value → Value → Option (Map Value) → Value → ℤ → List StorageVolume
  unfolding volume_row sort
  volumes_from sizes deltas spec capacities release_count =
      sort (λ v. v.name)
        (map
          (volume_row (map_or_empty (as_map deltas)) spec (map_or_empty (as_map capacities))
            release_count)
          (map_or_empty (as_map sizes)))

  abbrev pub no_storage : Storage
  no_storage = record {
    measured_at = "";
    threshold_state = "";
    release_count = pos 0;
    volumes = [];
  }

  unfoldable pub storage_of : Option (Map Value) → Map Value → Storage
  unfolding as_string as_int volumes_from
  storage_of spec m = record {
    measured_at = as_string (at "measuredAt" m);
    threshold_state = as_string (at "thresholdState" m);
    release_count = as_int (at "releaseCount" m);
    volumes =
        volumes_from (at "sizes" m) (at "lastRunDeltas" m) spec (at "capacities" m)
          (as_int (at "releaseCount" m));
  }

  unfoldable pub storage_from : Value → Option (Map Value) → Storage
  unfolding storage_of
  storage_from v spec = elim (as_map v) [ none ↦ no_storage | some m ↦ storage_of spec m ]
