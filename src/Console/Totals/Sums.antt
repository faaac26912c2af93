-- ===== src/Console/Totals/Sums.antt =====
-- The totals of all Apps against the totals of each.
use toggle_web_baker.Common.{◌≡◌, refl, ap, sym, ◌∙◌, List, [], ◌∷◌, arith}
use toggle_web_baker.Common.Int.{ℤ, pos, ◌+ℤ◌}
use toggle_web_baker.Console.Model.{App}
use toggle_web_baker.Console.Totals.{
  StorageTotals, storage_totals, aggregate_storage, sum_totals, plus_totals, with_grand, no_totals,
}

-- The sum of one number of each App.
unfoldable pub sum_over : (App → ℤ) → List App → ℤ
unfolding ◌+ℤ◌
sum_over f [] = pos 0
sum_over f (a ∷ apps) = f a +ℤ sum_over f apps

add_assoc : (a b c : ℤ) → (a +ℤ b) +ℤ c ≡ a +ℤ (b +ℤ c)
unfolding ◌+ℤ◌
add_assoc a b c = ground arith

add_zero : (a : ℤ) → a +ℤ pos 0 ≡ a
unfolding ◌+ℤ◌
add_zero a = ground arith

zero_add : (a : ℤ) → pos 0 +ℤ a ≡ a
unfolding ◌+ℤ◌
zero_add a = ground arith

add_comm : (a b : ℤ) → a +ℤ b ≡ b +ℤ a
unfolding ◌+ℤ◌
add_comm a b = ground arith

interchange : (a b c d : ℤ) → (a +ℤ b) +ℤ (c +ℤ d) ≡ (a +ℤ c) +ℤ (b +ℤ d)
interchange a b c d =
    add_assoc a b (c +ℤ d)
    ∙ (ap (λ x. a +ℤ x)
          (sym (add_assoc b c d) ∙ (ap (λ x. x +ℤ d) (add_comm b c) ∙ add_assoc c b d))
        ∙ sym (add_assoc a c (b +ℤ d)))

interchange_three :
    (a b c d e f : ℤ) → (a +ℤ b) +ℤ (c +ℤ d) +ℤ (e +ℤ f) ≡ (a +ℤ c +ℤ e) +ℤ (b +ℤ d +ℤ f)
interchange_three a b c d e f =
    ap (λ x. x +ℤ (e +ℤ f)) (interchange a b c d) ∙ interchange (a +ℤ c) (b +ℤ d) e f

-- The three categories that make the footprint.
footprint : StorageTotals → ℤ
footprint t = t.cache +ℤ t.data_cache +ℤ t.output_total

footprint-plus_totals :
    (t at : StorageTotals) → footprint (plus_totals t at) ≡ footprint t +ℤ footprint at
unfolding footprint plus_totals
footprint-plus_totals t at =
    interchange_three t.cache at.cache t.data_cache at.data_cache t.output_total at.output_total

grand-storage_totals : (a : App) → (storage_totals a).grand ≡ footprint (storage_totals a)
unfolding storage_totals footprint with_grand
grand-storage_totals a = refl

footprint-sum_totals :
    (t : StorageTotals) (apps : List App)
    → footprint (sum_totals t apps) ≡ footprint t +ℤ sum_over (λ a. (storage_totals a).grand) apps
unfolding sum_totals sum_over
footprint-sum_totals t [] = sym (add_zero (footprint t))
footprint-sum_totals t (a ∷ apps) =
    footprint-sum_totals (plus_totals t (storage_totals a)) apps
    ∙ (ap (λ x. x +ℤ sum_over (λ b. (storage_totals b).grand) apps)
          (footprint-plus_totals t (storage_totals a)
            ∙ ap (λ x. footprint t +ℤ x) (sym (grand-storage_totals a)))
        ∙ add_assoc (footprint t) (storage_totals a).grand
            (sum_over (λ b. (storage_totals b).grand) apps))

-- The grand total over all Apps is the sum of the Apps' own grand totals, so that the heading of the list
-- agrees with its rows, whatever volumes the Apps report.
pub aggregate_storage-sum :
    (apps : List App)
    → (aggregate_storage apps).grand ≡ sum_over (λ a. (storage_totals a).grand) apps
unfolding aggregate_storage with_grand footprint
aggregate_storage-sum apps =
    footprint-sum_totals no_totals apps ∙ zero_add (sum_over (λ a. (storage_totals a).grand) apps)
