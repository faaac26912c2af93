-- ===== src/Observability/Limiter/Pruning.antt =====
-- The sweep of internal/observability/ratelimit.go, against a limiter that never forgets a send.
use toggle_web_baker.Common.{
  ℕ, ◌+◌, ◌≤◌, ◌≡◌, refl, inl, inr, Bool, true, false, Option, none, some, List, [], ◌∷◌, Codes,
  codes_eq, arith, Bool-cases, leb, if◌then◌else◌, leb→le,
}
use mathlib.Core.Path.{ap₂}
use toggle_web_baker.Observability.Limiter.{
  FingerprintLimiter, limit_window, prune_interval, new_fingerprint_limiter, prune, muted, recorded,
  unless_stale, allow_key,
}

-- The last send of each key, never forgotten.
abbrev pub Sends : Type 0
Sends = Codes → Option ℕ

abbrev pub allow_unpruned : Codes → ℕ → Sends → Bool × Sends
allow_unpruned key now sends =
    if muted now (sends key)
    then (false, sends)
    else (true, λ k. if codes_eq key k then some now else sends k)

-- What the limiter holds for a key, against the sends: the same, or nothing where the window is over.
data Agrees (now : ℕ) : Option ℕ → Option ℕ → Type 0 where
  same : (o : Option ℕ) → Agrees now o o
  forgotten : (sent : ℕ) → sent + limit_window ≤ now → Agrees now none (some sent)

Agrees-later : {now later : ℕ} {a b : Option ℕ} → now ≤ later → Agrees now a b → Agrees later a b
Agrees-later h (same o) = same o
Agrees-later h (forgotten sent g) = forgotten sent (omega arith)

Agrees-stale : {now : ℕ} {a b : Option ℕ} → Agrees now a b → Agrees now (unless_stale now a) b
Agrees-stale (same none) = same none
Agrees-stale {now} (same (some sent)) = elim (Bool-cases (leb (sent + limit_window) now)) [
  | inl e ↦ rw e (forgotten sent (leb→le _ _ e))
  | inr e ↦ rw e (same (some sent))
]
Agrees-stale (forgotten sent g) = forgotten sent g

Agrees-muted : {now : ℕ} {a b : Option ℕ} → Agrees now a b → muted now a ≡ muted now b
Agrees-muted (same o) = refl
Agrees-muted (forgotten sent g) = ground (arith, g)

abbrev Holds : ℕ → FingerprintLimiter → Sends → Type 0
Holds now l sends = (k : Codes) → Agrees now (l.last_sent k) (sends k)

prune-Holds :
    (now : ℕ) (l : FingerprintLimiter) (sends : Sends)
    → Holds now l sends
    → Holds now (prune now l) sends
unfolding prune
prune-Holds now l sends h k = elim (Bool-cases (leb (l.last_prune + prune_interval) now)) [
  | inl e ↦ rw e (Agrees-stale (h k))
  | inr e ↦ rw e (h k)
]

recorded-Holds :
    (key : Codes) (now : ℕ) (l : FingerprintLimiter) (sends : Sends)
    → Holds now l sends
    → Holds now (recorded key now l) (λ k. if codes_eq key k then some now else sends k)
recorded-Holds key now l sends h k = elim (Bool-cases (codes_eq key k)) [
  | inl e ↦ rw e (same (some now))
  | inr e ↦ rw e (h k)
]

step-Holds :
    (key : Codes) (now : ℕ) (l : FingerprintLimiter) (sends : Sends)
    → Holds now l sends
    → ((allow_key key now l).0 ≡ (allow_unpruned key now sends).0)
      × Holds now (allow_key key now l).1 (allow_unpruned key now sends).1
unfolding allow_key
step-Holds key now l sends h = elim (Bool-cases (muted now (sends key))) [
  | inl m ↦ (rw (agree, m) refl, rw (agree, m) kept)
  | inr m ↦ (rw (agree, m) refl, rw (agree, m) (recorded-Holds key now (prune now l) sends kept))
]
  where
    kept : Holds now (prune now l) sends
    kept = prune-Holds now l sends h

    agree : muted now ((prune now l).last_sent key) ≡ muted now (sends key)
    agree = Agrees-muted (kept key)

-- The answers to a sequence of calls, each a key and its time.
abbrev pub answers : List (Codes × ℕ) → FingerprintLimiter → List Bool
answers [] l = []
answers ((key, now) ∷ calls) l = (allow_key key now l).0 ∷ answers calls (allow_key key now l).1

abbrev pub answers_unpruned : List (Codes × ℕ) → Sends → List Bool
answers_unpruned [] sends = []
answers_unpruned ((key, now) ∷ calls) sends =
    (allow_unpruned key now sends).0 ∷ answers_unpruned calls (allow_unpruned key now sends).1

-- The times of the calls do not fall, from `clock` on.
abbrev pub Rising : ℕ → List (Codes × ℕ) → Type 0
Rising clock [] = Unit
Rising clock ((key, now) ∷ calls) = (clock ≤ now) × Rising now calls

answers_from :
    (clock : ℕ) (calls : List (Codes × ℕ)) (l : FingerprintLimiter) (sends : Sends)
    → Rising clock calls
    → Holds clock l sends
    → answers calls l ≡ answers_unpruned calls sends
answers_from clock [] l sends r h = refl
answers_from clock ((key, now) ∷ calls) l sends r h =
    let (a, h') = step-Holds key now l sends (λ k. Agrees-later r.0 (h k)) in
    ap₂ ◌∷◌ a
      (answers_from now calls (allow_key key now l).1 (allow_unpruned key now sends).1 r.1 h')

-- On calls whose clock does not go back, a new limiter answers as one that keeps every send for
-- ever: the sweep of stale entries is never seen.
pub answers-unpruned :
    (calls : List (Codes × ℕ))
    → Rising 0 calls
    → answers calls new_fingerprint_limiter ≡ answers_unpruned calls (λ k. none)
unfolding new_fingerprint_limiter
answers-unpruned calls r =
    answers_from 0 calls new_fingerprint_limiter (λ k. none) r (λ k. same none)
