-- ===== src/Common/Results.antt =====
-- Go's `(value, error)`: a value, or the error that is returned.
use mathlib.Core.Path.{◌≡◌, refl, ap}

pub data Result {ℓ κ} (E : Type ℓ) (A : Type κ) : Type (ℓ ⊔ κ) where
  err : (reason : E) → Result E A
  ok : (value : A) → Result E A

module _ {ℓ κ} {E : Type ℓ} {A : Type κ} where
  pub err-ne-ok : (e : E) (a : A) (m : Result E A) → m ≡ err e → ¬ (m ≡ ok a)
  err-ne-ok e a m h k = cc

module _ {ℓ κ} {E : Type ℓ} {A : Type κ} where
  value_or : A → Result E A → A
  value_or a (err e) = a
  value_or a (ok b) = b

  pub ok-injective : (a b : A) → ◌≡◌ {A = Result E A} (ok a) (ok b) → a ≡ b
  unfolding value_or
  ok-injective a b h = ap (value_or a) h

module _ {ℓ κ μ} {E : Type ℓ} {A : Type κ} {B : Type μ} where
  infixl 5 ◌>>=◌
  abbrev pub ◌>>=◌ : Result E A → (A → Result E B) → Result E B
  err reason >>= next = err reason
  ok value >>= next = next value

  -- What a chain that succeeds says of its first step.
  pub >>=-eq-ok :
      (check : Result E A) (next : A → Result E B) {final : B}
      → (check >>= next) ≡ ok final
      → (value : A) × (check ≡ ok value) × (next value ≡ ok final)
  >>=-eq-ok (err reason) next returned = cc
  >>=-eq-ok (ok value) next returned = (value, refl, returned)

-- A check that returns no value comes first.
module _ {ℓ μ} {E : Type ℓ} {B : Type μ} where
  infixl 5 ◌>>◌
  abbrev pub ◌>>◌ : Result E (Unit {0}) → Result E B → Result E B
  check >> rest = check >>= λ _. rest
