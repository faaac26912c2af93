-- ===== src/Controller/Exec/Creates.antt =====
-- Counting the Jobs that a step creates, whether it succeeds or returns an error.
use toggle_web_baker.Common.{ℕ, ◌+◌, ◌≤◌, ◌≡◌, refl, ap, err-ne-ok, length, Result, ok, err, arith}
use toggle_web_baker.Cluster.{Job}
use toggle_web_baker.Controller.Exec.{ApiError, Client, RunState, Run, next, ◌>>>◌, create_job}

module _ {W : Type 0} where
  -- At most `n` calls of Create, from any state and on every path.
  abbrev pub CreatesAtMost {ℓ} : {A : Type ℓ} → ℕ → Run W A → Type 0
  CreatesAtMost n m = (s : RunState W) → length (m s).1.creates ≤ n + length s.creates

  pub create_job-CreatesAtMost :
      (client : Client W) (job : Job) → CreatesAtMost 1 (create_job client job)
  create_job-CreatesAtMost client job s = omega arith

  pub next-CreatesAtMost {ℓ κ} :
      {A : Type ℓ} {B : Type κ} (n : ℕ) (f : A → Run W B)
      → ((a : A) → CreatesAtMost n (f a))
      → (r : Result ApiError A × RunState W) → length (next f r).1.creates ≤ n + length r.1.creates
  next-CreatesAtMost n f h (ok a, s) = h a s
  next-CreatesAtMost n f h (err e, s) = omega arith

  pub >>>-CreatesAtMost {ℓ κ} :
      {A : Type ℓ} {B : Type κ} (k n : ℕ) (m : Run W A) (f : A → Run W B)
      → CreatesAtMost k m
      → ((a : A) → CreatesAtMost n (f a))
      → CreatesAtMost (k + n) (m >>> f)
  >>>-CreatesAtMost k n m f hm hf s = omega (arith, hm s, next-CreatesAtMost n f hf (m s))

  -- A chain that succeeds: its first step succeeded, and so did the rest.
  pub next-eq-ok {ℓ κ} :
      {A : Type ℓ} {B : Type κ} (f : A → Run W B) (r : Result ApiError A × RunState W) {b : B}
      {t : RunState W}
      → next f r ≡ (ok b, t)
      → (a : A) × (s : RunState W) × (r ≡ (ok a, s)) × (f a s ≡ (ok b, t))
  next-eq-ok f (ok a, s) h = (a, s, refl, h)
  next-eq-ok f (err e, s) h = absurd (err-ne-ok e _ (err e) refl (ap (λ r. r.0) h))
