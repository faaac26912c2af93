-- ===== src/Controller/Cleanup/Spending.antt =====
-- internal/controller/cleanup.go: what one step of the pass over the actions may create.
use toggle_web_baker.Common.{
  ℕ, ◌+◌, ◌≤◌, ◌≡◌, refl, String, Bool, true, false, ◌||◌, length, Result, ok, err, arith,
}
use toggle_web_baker.Domain.Cleanup.{
  CleanupDecision, no_cleanup, start_cleanup, wait_cleanup, decide_cleanup,
}
use toggle_web_baker.Controller.Exec.{ApiError, RunState, Run, next, ◌>>>◌, pure}
use toggle_web_baker.Controller.Exec.Creates.{CreatesAtMost}

abbrev pub bit : Bool → ℕ
bit true = 1
bit false = 0

-- 1 for an error, or for a pass that has started a cleanup.
abbrev pub cost : Result ApiError Bool → ℕ
cost (ok b) = bit b
cost (err _) = 1

abbrev pub is_start : CleanupDecision → Bool
is_start start_cleanup = true
is_start no_cleanup = false
is_start wait_cleanup = false

pub decide-start_free :
    (requested processed : String) (build active : Bool)
    → is_start (decide_cleanup requested processed build active) ≡ true
    → build || active ≡ false
unfolding decide_cleanup
decide-start_free requested processed build active h = ground (arith, h)

pub decide-build :
    (requested processed : String) (active : Bool)
    → is_start (decide_cleanup requested processed true active) ≡ false
unfolding decide_cleanup
decide-build requested processed active = ground arith

pub decide-busy :
    (requested processed : String) (build active before held : Bool)
    → held ≡ true
    → is_start (decide_cleanup requested processed build (active || before || held)) ≡ false
unfolding decide_cleanup
decide-busy requested processed build active before held h = ground (arith, h)

pub decide-unrequested :
    (processed : String) (build active : Bool)
    → is_start (decide_cleanup "" processed build active) ≡ false
unfolding decide_cleanup
decide-unrequested processed build active = refl

pub middle_free : (a b c d : Bool) → a || (b || c || d) ≡ false → c ≡ false
middle_free a b true d h = ground arith
middle_free a b false d h = refl

module _ {W : Type 0} where
  -- A step that starts a cleanup says so, and starts none where one was started before.
  abbrev pub Spends : Bool → Run W Bool → Type 0
  Spends before m =
      (s : RunState W) → length (m s).1.creates + bit before ≤ length s.creates + cost (m s).0

  pub next-Spends {ℓ} :
      {A : Type ℓ} (before : Bool) (f : A → Run W Bool)
      → ((a : A) → Spends before (f a))
      → (r : Result ApiError A × RunState W)
      → length (next f r).1.creates + bit before ≤ length r.1.creates + cost (next f r).0
  next-Spends before f h (ok a, s) = h a s
  next-Spends true f h (err e, s) = omega arith
  next-Spends false f h (err e, s) = omega arith

  -- After a step that creates none.
  pub free-Spends {ℓ} :
      {A : Type ℓ} (before : Bool) (m : Run W A) (f : A → Run W Bool)
      → CreatesAtMost 0 m
      → ((a : A) → Spends before (f a))
      → Spends before (m >>> f)
  free-Spends before m f hm hf s = omega (arith, hm s, next-Spends before f hf (m s))

  pub then-Spends :
      (before : Bool) (f : Bool → Run W Bool)
      → ((b : Bool) → Spends b (f b))
      → (n : ℕ) (r : Result ApiError Bool × RunState W)
      → length r.1.creates + bit before ≤ n + cost r.0
      → length (next f r).1.creates + bit before ≤ n + cost (next f r).0
  then-Spends before f h n (ok b, s) k = omega (arith, h b s)
  then-Spends before f h n (err e, s) k = k

  pub started-cost :
      (r : Result ApiError (Unit {0}) × RunState W)
      → (length (next (λ _. pure true) r).1.creates ≡ length r.1.creates)
        × (cost (next (λ _. pure true) r).0 ≡ 1)
  started-cost (ok tt, s) = (refl, refl)
  started-cost (err e, s) = (refl, refl)
