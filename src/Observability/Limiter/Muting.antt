-- ===== src/Observability/Limiter/Muting.antt =====
-- How long the limiter of internal/observability/ratelimit.go keeps a fingerprint quiet.
use toggle_web_baker.Common.{
  ℕ, ◌+◌, ◌≤◌, ◌<◌, ◌≡◌, refl, true, false, some, List, [], ◌∷◌, Codes, codes_eq, codes_eq_self,
  codes_eq→eq, sym, ◌∙◌, subst, arith, Bool-cases, inl, inr, All,
}
use mathlib.Core.Bool.{false≢true}
use toggle_web_baker.Observability.Limiter.{
  FingerprintLimiter, limit_window, prune, muted, recorded, allow_key,
}

-- The limiter remembers a send of the key whose window ends no earlier than `until`.
abbrev pub QuietUntil : ℕ → Codes → FingerprintLimiter → Type 0
QuietUntil until key l = (sent : ℕ) × (l.last_sent key ≡ some sent) × (until ≤ sent + limit_window)

prune-QuietUntil :
    (until : ℕ) (key : Codes) (now : ℕ) (l : FingerprintLimiter)
    → now < until
    → QuietUntil until key l
    → QuietUntil until key (prune now l)
unfolding prune
prune-QuietUntil until key now l h (sent, e, u) = (sent, ground (arith, e), u)

muted-QuietUntil :
    (until : ℕ) (key : Codes) (now : ℕ) (l : FingerprintLimiter)
    → now < until
    → QuietUntil until key l
    → muted now (l.last_sent key) ≡ true
muted-QuietUntil until key now l h (sent, e, u) = rw e (ground arith)

recorded-QuietUntil :
    (until : ℕ) (key other : Codes) (now : ℕ) (l : FingerprintLimiter)
    → codes_eq other key ≡ false
    → QuietUntil until key l
    → QuietUntil until key (recorded other now l)
recorded-QuietUntil until key other now l h (sent, e, u) = (sent, rw h e, u)

allow_key-QuietUntil :
    (until : ℕ) (key other : Codes) (now : ℕ) (l : FingerprintLimiter)
    → now < until
    → QuietUntil until key l
    → QuietUntil until key (allow_key other now l).1
unfolding allow_key
allow_key-QuietUntil until key other now l h q =
    elim (Bool-cases (muted now ((prune now l).last_sent other))) [
      | inl m ↦ rw m pruned
      | inr m ↦ rw m (elim (Bool-cases (codes_eq other key)) [
        | inl s ↦ absurd (
            false≢true (
              sym m
              ∙ subst (λ k. muted now ((prune now l).last_sent k) ≡ true)
                  (sym (codes_eq→eq other key s))
                  (muted-QuietUntil until key now (prune now l) h pruned)))
        | inr s ↦ recorded-QuietUntil until key other now (prune now l) s pruned
      ])
    ]
  where
    pruned : QuietUntil until key (prune now l)
    pruned = prune-QuietUntil until key now l h q

allow_key_quiet :
    (until : ℕ) (key : Codes) (now : ℕ) (l : FingerprintLimiter)
    → now < until
    → QuietUntil until key l
    → (allow_key key now l).0 ≡ false
unfolding allow_key
allow_key_quiet until key now l h q =
    rw (muted-QuietUntil until key now (prune now l) h (prune-QuietUntil until key now l h q)) refl

-- A send that is allowed starts a window.
allow_key_sent :
    (key : Codes) (now : ℕ) (l : FingerprintLimiter)
    → (allow_key key now l).0 ≡ true
    → QuietUntil (now + limit_window) key (allow_key key now l).1
unfolding allow_key
allow_key_sent key now l h = elim (Bool-cases (muted now ((prune now l).last_sent key))) [
  | inl m ↦ cc (rw m at h)
  | inr m ↦ (now, rw (m, codes_eq_self key) refl, omega arith)
]

-- The limiter after a sequence of calls, each a key and its time.
abbrev pub after : List (Codes × ℕ) → FingerprintLimiter → FingerprintLimiter
after [] l = l
after ((key, now) ∷ calls) l = after calls (allow_key key now l).1

after-QuietUntil :
    (until : ℕ) (key : Codes) (calls : List (Codes × ℕ)) (l : FingerprintLimiter)
    → All (λ c. c.1 < until) calls
    → QuietUntil until key l
    → QuietUntil until key (after calls l)
after-QuietUntil until key [] l h q = q
after-QuietUntil until key ((other, now) ∷ calls) l h q =
    after-QuietUntil until key calls (allow_key other now l).1 h.1
      (allow_key-QuietUntil until key other now l h.0 q)

-- Once a fingerprint is let through, it is refused until a window has passed, whatever other calls
-- come between: the sweeps that they cause do not forget it.
pub allow_key_once_per_window :
    (key : Codes) (sent : ℕ) (l : FingerprintLimiter) (calls : List (Codes × ℕ)) (now : ℕ)
    → (allow_key key sent l).0 ≡ true
    → All (λ c. c.1 < sent + limit_window) calls
    → now < sent + limit_window
    → (allow_key key now (after calls (allow_key key sent l).1)).0 ≡ false
allow_key_once_per_window key sent l calls now allowed between h =
    allow_key_quiet (sent + limit_window) key now (after calls (allow_key key sent l).1) h (
      after-QuietUntil (sent + limit_window) key calls _ between
        (allow_key_sent key sent l allowed))
