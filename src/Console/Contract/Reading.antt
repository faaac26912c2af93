-- ===== src/Console/Contract/Reading.antt =====
-- How the console reads single fields of an object that was written by the `json` tags.
use toggle_web_baker.Common.{
  ℕ, String, Bool, true, false, ◌≡◌, refl, ap, ◌∙◌, Option, none, some, List, [], ◌∷◌, Bool-cases,
  map, Map, ◌==◌, inl, inr, ==_iff, str_cases,
}
use toggle_web_baker.Common.Int.{ℤ, pos, eqb_ℤ, eqb_ℤ→eq}
use toggle_web_baker.Api.Json.{omit_time}
use toggle_web_baker.Api.Json.Fields.{
  present, find, distinct, lookup-present, omit_text, omit_int, omit_nat, omit_true, omit_empty,
}
use toggle_web_baker.Console.Value.{
  Value, text, items, of_items, entries, at, or_nil, as_string, as_int, as_bool, as_map,
}
use toggle_web_baker.Console.From.{list_or_empty, each_map}
use toggle_web_baker.Console.Contract.{shown_time}

pub items-of_items : (vs : List Value) → items (of_items vs) ≡ vs
items-of_items [] = refl
items-of_items (v ∷ vs) = ap (◌∷◌ v) (items-of_items vs)

pub list_or_empty-omit_empty : (vs : List Value) → list_or_empty (or_nil (omit_empty vs)) ≡ vs
list_or_empty-omit_empty [] = refl
list_or_empty-omit_empty (v ∷ vs) = ap (◌∷◌ v) (items-of_items vs)

each_map-some {ℓ} :
    {A : Type ℓ} (read : Map Value → A) (v : Value) {m : Map Value} (vs : List Value)
    → as_map v ≡ some m
    → each_map read (v ∷ vs) ≡ read m ∷ each_map read vs
each_map-some read v vs h =
    ap (λ o. elim o [ none ↦ each_map read vs | some w ↦ read w ∷ each_map read vs ]) h

-- A list of maps that are all written in one way.
pub each_map-map {ℓ κ} :
    {A : Type ℓ} {B : Type κ} (read : Map Value → B) (encode : A → Value) (written : A → Map Value)
    → ((a : A) → as_map (encode a) ≡ some (written a))
    → (xs : List A) → each_map read (map encode xs) ≡ map (λ a. read (written a)) xs
each_map-map read encode written h [] = refl
each_map-map read encode written h (x ∷ xs) =
    each_map-some read (encode x) (map encode xs) (h x)
    ∙ ap (◌∷◌ (read (written x))) (each_map-map read encode written h xs)

pub map_cong {ℓ κ} :
    {A : Type ℓ} {B : Type κ} {f g : A → B}
    → ((a : A) → f a ≡ g a)
    → (xs : List A) → map f xs ≡ map g xs
map_cong h [] = refl
map_cong h (x ∷ xs) = λ i. h x i ∷ map_cong h xs i

as_string-omit_text : (t : String) → as_string (or_nil (omit_text t)) ≡ t
unfolding as_string
as_string-omit_text t = elim (str_cases t "") [ inl e ↦ rw e | inr n ↦ rw n ]

as_string-omit_time :
    (format_time : ℕ → String) (o : Option ℕ)
    → as_string (or_nil (omit_time format_time o)) ≡ shown_time format_time o
unfolding as_string
as_string-omit_time format_time none = refl
as_string-omit_time format_time (some t) = refl

as_int-omit_int : (n : ℤ) → as_int (or_nil (omit_int n)) ≡ n
unfolding as_int
as_int-omit_int n = elim (Bool-cases (eqb_ℤ n (pos 0))) [
  | inl e ↦ rw (eqb_ℤ→eq n (pos 0) e)
  | inr e ↦ rw e
]

as_int-omit_nat : (n : ℕ) → as_int (or_nil (omit_nat n)) ≡ pos n
unfolding as_int
as_int-omit_nat n = elim (Bool-cases (n == 0)) [ inl e ↦ rw ((==_iff n 0).0 e) | inr e ↦ rw e ]

as_bool-omit_true : (b : Bool) → as_bool (or_nil (omit_true b)) ≡ b
unfolding as_bool
as_bool-omit_true true = refl
as_bool-omit_true false = refl

-- The fields of one object, no two of which have one key.
module _ (fs : List (String × Option Value)) (unique : distinct fs ≡ true) (k : String) where
  pub at_field : at k (entries (present fs)) ≡ or_nil (find k fs)
  at_field = ap or_nil (lookup-present k fs unique)

  pub text_field :
      (t : String) → find k fs ≡ omit_text t → as_string (at k (entries (present fs))) ≡ t
  text_field t h = ap as_string (at_field ∙ ap or_nil h) ∙ as_string-omit_text t

  pub given_text :
      (t : String) → find k fs ≡ some (text t) → as_string (at k (entries (present fs))) ≡ t
  unfolding as_string
  given_text t h = ap as_string (at_field ∙ ap or_nil h)

  pub time_field :
      (format_time : ℕ → String) (o : Option ℕ)
      → find k fs ≡ omit_time format_time o
      → as_string (at k (entries (present fs))) ≡ shown_time format_time o
  time_field format_time o h =
      ap as_string (at_field ∙ ap or_nil h) ∙ as_string-omit_time format_time o

  pub int_field : (n : ℤ) → find k fs ≡ omit_int n → as_int (at k (entries (present fs))) ≡ n
  int_field n h = ap as_int (at_field ∙ ap or_nil h) ∙ as_int-omit_int n

  pub nat_field : (n : ℕ) → find k fs ≡ omit_nat n → as_int (at k (entries (present fs))) ≡ pos n
  nat_field n h = ap as_int (at_field ∙ ap or_nil h) ∙ as_int-omit_nat n

  pub true_field : (b : Bool) → find k fs ≡ omit_true b → as_bool (at k (entries (present fs))) ≡ b
  true_field b h = ap as_bool (at_field ∙ ap or_nil h) ∙ as_bool-omit_true b
