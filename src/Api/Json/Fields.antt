-- ===== src/Api/Json/Fields.antt =====
-- How `encoding/json` writes the fields of a structure: those with a value, in their order.
use toggle_web_baker.Common.{
  ℕ, String, Bool, true, false, not, ◌&&◌, ◌≡◌, refl, Option, none, some, List, [], ◌∷◌,
  if◌then◌else◌, str_eq, eq_iff, any, arith, Map, ◌==◌, lookup,
}
use toggle_web_baker.Common.Int.{ℤ, pos, eqb_ℤ}
use toggle_web_baker.Console.Value.{
  Value, text, boolean, integer, array, object, no_fields, field, Fields, of_items, of_entries,
  entries,
}

abbrev pub present : List (String × Option Value) → Fields
present [] = no_fields
present ((k, v) ∷ fs) = elim v [ none ↦ present fs | some w ↦ field k w (present fs) ]

abbrev pub omit_text : String → Option Value
omit_text t = if str_eq t "" then none else some (text t)

abbrev pub omit_int : ℤ → Option Value
omit_int n = if eqb_ℤ n (pos 0) then none else some (integer n)

abbrev pub omit_nat : ℕ → Option Value
omit_nat n = if n == 0 then none else some (integer (pos n))

abbrev pub omit_true : Bool → Option Value
omit_true b = if b then some (boolean true) else none

abbrev pub omit_empty : List Value → Option Value
omit_empty [] = none
omit_empty (v ∷ vs) = some (array (of_items (v ∷ vs)))

abbrev pub omit_fields : Map Value → Option Value
omit_fields [] = none
omit_fields (e ∷ m) = some (object (of_entries (e ∷ m)))

-- The value of the first field with this key.
abbrev pub find : String → List (String × Option Value) → Option Value
find k [] = none
find k ((j, v) ∷ fs) = let rest = find k fs in if str_eq j k then v else rest

abbrev pub distinct : List (String × Option Value) → Bool
distinct [] = true
distinct ((k, v) ∷ fs) = not (any (λ e. str_eq e.0 k) fs) && distinct fs

lookup-absent :
    (k : String) (fs : List (String × Option Value))
    → any (λ e. str_eq e.0 k) fs ≡ false
    → lookup k (entries (present fs)) ≡ none
lookup-absent k [] h = refl
lookup-absent k ((j, none) ∷ fs) h = ground (arith, lookup-absent k fs)
lookup-absent k ((j, some v) ∷ fs) h = ground (arith, lookup-absent k fs)

-- A field reads as it was written, where no two have one key.
pub lookup-present :
    (k : String) (fs : List (String × Option Value))
    → distinct fs ≡ true
    → lookup k (entries (present fs)) ≡ find k fs
lookup-present k [] h = refl
lookup-present k ((j, none) ∷ fs) h =
    ground (arith, eq_iff j k, lookup-present k fs, lookup-absent j fs)
lookup-present k ((j, some v) ∷ fs) h = ground (arith, lookup-present k fs)
