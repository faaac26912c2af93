-- ===== src/Observability/Limiter.antt =====
-- internal/observability/ratelimit.go: one event per fingerprint and window. Times are nanoseconds
-- since Go's zero time, so `now.Sub(t) >= d` is `t + d ≤ now`. The map is a function.
pub mod Keys
pub mod Muting
pub mod Pruning
use toggle_web_baker.Common.{
  ℕ, ◌+◌, ◌*◌, ◌^◌, Bool, true, false, Option, none, some, List, [], ◌∷◌, ◌++◌, if◌then◌else◌, leb,
  Codes, codes_eq,
}

abbrev pub limit_window : ℕ
limit_window = 3600 * 10 ^ 9

abbrev pub prune_interval : ℕ
prune_interval = 60 * 10 ^ 9

pub record FingerprintLimiter : Type 0 where
  pub last_sent : Codes → Option ℕ
  pub last_prune : ℕ

unfoldable pub new_fingerprint_limiter : FingerprintLimiter
new_fingerprint_limiter = record { last_sent = λ k. none; last_prune = 0 }

-- `strings.Join(fingerprint, "\x00")`
unfoldable pub join_fingerprint : List Codes → Codes
join_fingerprint [] = []
join_fingerprint (s ∷ []) = s
join_fingerprint (s ∷ t ∷ rest) = s ++ 0 ∷ join_fingerprint (t ∷ rest)

-- An entry whose window has passed is deleted.
abbrev pub unless_stale : ℕ → Option ℕ → Option ℕ
unless_stale now none = none
unless_stale now (some sent) = if leb (sent + limit_window) now then none else some sent

unfoldable pub prune : ℕ → FingerprintLimiter → FingerprintLimiter
prune now l =
    if leb (l.last_prune + prune_interval) now
    then record { last_sent = λ k. unless_stale now (l.last_sent k); last_prune = now }
    else l

-- `sent, ok := lastSent[key]; ok && now.Sub(sent) < limitWindow`
abbrev pub muted : ℕ → Option ℕ → Bool
muted now none = false
muted now (some sent) = if leb (sent + limit_window) now then false else true

abbrev pub recorded : Codes → ℕ → FingerprintLimiter → FingerprintLimiter
recorded key now l = record l {
  last_sent = λ k. if codes_eq key k then some now else l.last_sent k;
}

unfoldable pub allow_key : Codes → ℕ → FingerprintLimiter → Bool × FingerprintLimiter
unfolding prune
allow_key key now l =
    let pruned = prune now l in
    if muted now (pruned.last_sent key) then (false, pruned) else (true, recorded key now pruned)

unfoldable pub allow : List Codes → ℕ → FingerprintLimiter → Bool × FingerprintLimiter
unfolding allow_key join_fingerprint
allow fingerprint now l = allow_key (join_fingerprint fingerprint) now l
