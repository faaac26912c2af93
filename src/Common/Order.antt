-- ===== src/Common/Order.antt =====
-- Go's `<` on texts, which compares their bytes, and `sort.SliceStable` by a text.
use Prim.Native.Nat.{ℕ, Ordering, compare as compare_nat}
use Prim.Native.Char.{code}
use Prim.Native.String.{String, compare, then as first_of}
use Prim.Native.String.compare as cmp
use mathlib.Core.Path.{◌≡◌, refl, ◌∙◌, sym}
use mathlib.Core.Bool.{Bool, true, false}
use mathlib.Core.List.{List, [], ◌∷◌}
use native.Mathlib.Omega.{arith}
use toggle_web_baker.Common.Tests.{if◌then◌else◌, Bool-cases, str_eq-false}
use toggle_web_baker.Common.Lists.{first}
use text.Mathlib.Text.{◌==◌ as str_eq}
use text.Mathlib.TextEquality.{eq_iff}
use mathlib.Core.Logic.{inl, inr}

abbrev pub str_ltb : String → String → Bool
str_ltb s t = elim (compare s t) [ Ordering.lt ↦ true | _ ↦ false ]

module _ {ℓ} {A : Type ℓ} (key : A → String) where
  -- Before the first element that is not less.
  abbrev pub insert_sorted : A → List A → List A
  insert_sorted x [] = x ∷ []
  insert_sorted x (y ∷ ys) =
      let later = y ∷ insert_sorted x ys in if str_ltb (key y) (key x) then later else x ∷ y ∷ ys

  -- The stable sort by `key`.
  unfoldable pub sort : List A → List A
  sort [] = []
  sort (x ∷ xs) = insert_sorted x (sort xs)

first_of_self : (n : ℕ) (o : Ordering) → first_of (compare_nat n n) o ≡ o
first_of_self n o = ground arith

pub compare_self : (s : String) → compare s s ≡ Ordering.eq
compare_self String.[] = cmp.nil-nil
compare_self (String.◌∷◌ c s) =
    cmp.cons-cons c c s s ∙ (first_of_self (code c) (compare s s) ∙ compare_self s)

pub str_ltb_self : (s : String) → str_ltb s s ≡ false
str_ltb_self s = rw (str_ltb, compare_self s)

str_ltb-ne : (s t k : String) → str_ltb s t ≡ true → str_eq t k ≡ true → str_eq s k ≡ false
str_ltb-ne s t k less same =
    str_eq-false s k
      (λ e. let self = str_ltb_self s in let r : s ≡ t = e ∙ sym ((eq_iff t k).0 same) in cc)

module _ {ℓ} {A : Type ℓ} (key : A → String) where
  -- The sort is stable, so the first element of a key stays the first of it.
  first-insert_sorted :
      (k : String) (x : A) (ys : List A)
      → first (λ c. str_eq (key c) k) (insert_sorted key x ys)
        ≡ first (λ c. str_eq (key c) k) (x ∷ ys)
  first-insert_sorted k x [] = refl
  first-insert_sorted k x (y ∷ ys) = elim (Bool-cases (str_ltb (key y) (key x))) [
    | inr later ↦ rw later
    | inl earlier ↦ elim (Bool-cases (str_eq (key x) k)) [
      | inl same ↦
          let other : str_eq (key y) k ≡ false = str_ltb-ne (key y) (key x) k earlier same in
          rw (earlier, first-insert_sorted k x ys, same, other)
      | inr other ↦ rw (earlier, first-insert_sorted k x ys, other)
    ]
  ]

  pub first-sort :
      (k : String) (xs : List A)
      → first (λ c. str_eq (key c) k) (sort key xs) ≡ first (λ c. str_eq (key c) k) xs
  unfolding sort
  first-sort k [] = refl
  first-sort k (x ∷ xs) = first-insert_sorted k x (sort key xs) ∙ rw (first-sort k xs)
