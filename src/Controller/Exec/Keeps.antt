-- ===== src/Controller/Exec/Keeps.antt =====
-- What a step leaves true of the state on every path, and steps that return no error.
use toggle_web_baker.Common.{◌≡◌, Result, ok, err}
use toggle_web_baker.Controller.Exec.{ApiError, RunState, Run, next, ◌>>>◌}

module _ {W : Type 0} where
  -- The state after the step satisfies `P` where the state before did.
  abbrev pub Keeps {ℓ κ} : {A : Type ℓ} → (RunState W → Type κ) → Run W A → Type κ
  Keeps P m = (s : RunState W) → P s → P (m s).1

  -- The step returns a value from every state.
  abbrev pub Succeeds {ℓ} : {A : Type ℓ} → Run W A → Type ℓ
  Succeeds {A = A} m = (s : RunState W) → (a : A) × ((m s).0 ≡ ok a)

  module _ {κ} (P : RunState W → Type κ) where
    pub next-Keeps {ℓ μ} :
        {A : Type ℓ} {B : Type μ} (f : A → Run W B)
        → ((a : A) → Keeps P (f a))
        → (r : Result ApiError A × RunState W) → P r.1
        → P (next f r).1
    next-Keeps f h (ok a, s) p = h a s p
    next-Keeps f h (err e, s) p = p

    pub >>>-Keeps {ℓ μ} :
        {A : Type ℓ} {B : Type μ} (m : Run W A) (f : A → Run W B)
        → Keeps P m
        → ((a : A) → Keeps P (f a))
        → Keeps P (m >>> f)
    >>>-Keeps m f hm hf s p = next-Keeps f hf (m s) (hm s p)

  pub next-Succeeds {ℓ μ} :
      {A : Type ℓ} {B : Type μ} (f : A → Run W B)
      → ((a : A) → Succeeds (f a))
      → (r : Result ApiError A × RunState W) → (a : A) × (r.0 ≡ ok a)
      → (b : B) × ((next f r).0 ≡ ok b)
  next-Succeeds f h (ok a, s) returned = h a s
  next-Succeeds f h (err e, s) (a, returned) = cc

  pub >>>-Succeeds {ℓ μ} :
      {A : Type ℓ} {B : Type μ} (m : Run W A) (f : A → Run W B)
      → Succeeds m
      → ((a : A) → Succeeds (f a))
      → Succeeds (m >>> f)
  >>>-Succeeds m f hm hf s = next-Succeeds f hf (m s) (hm s)
