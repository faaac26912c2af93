-- ===== src/Observability/Limiter/Keys.antt =====
-- The keys that internal/observability/ratelimit.go makes of fingerprints.
use toggle_web_baker.Common.{◌≡◌, refl, ◌≢◌, List, [], ◌∷◌, ◌++◌, Codes, All, sym}
use toggle_web_baker.Observability.Limiter.{join_fingerprint}

-- A text with no NUL byte.
abbrev pub NoNul : Codes → Type 0
NoNul = All (λ c. c ≢ 0)

split_nul :
    (s t : Codes) {u v : Codes} → NoNul s → NoNul t → s ++ 0 ∷ u ≡ t ++ 0 ∷ v → (s ≡ t) × (u ≡ v)
split_nul [] [] hs ht e = (refl, cc)
split_nul [] (c ∷ t) hs ht e = absurd (ht.0 (cc))
split_nul (c ∷ s) [] hs ht e = absurd (hs.0 (cc))
split_nul (c ∷ s) (d ∷ t) {u} {v} hs ht e =
    let (p, q) = split_nul s t {u = u} {v = v} hs.1 ht.1 (cc) in (cc, q)

NoNul-inside : (s t u : Codes) → NoNul s → s ≢ t ++ 0 ∷ u
NoNul-inside [] [] u h e = cc
NoNul-inside [] (d ∷ t) u h e = cc
NoNul-inside (c ∷ s) [] u h e = h.0 (cc)
NoNul-inside (c ∷ s) (d ∷ t) u h e = NoNul-inside s t u h.1 (cc)

-- Two fingerprints that are not empty, of components with no NUL, share a key only if they are the
-- same list.
pub join_fingerprint-injective :
    (a : Codes) (as' : List Codes) (b : Codes) (bs : List Codes)
    → All NoNul (a ∷ as')
    → All NoNul (b ∷ bs)
    → join_fingerprint (a ∷ as') ≡ join_fingerprint (b ∷ bs)
    → a ∷ as' ≡ b ∷ bs
unfolding join_fingerprint
join_fingerprint-injective a [] b [] ha hb e = cc
join_fingerprint-injective a [] b (b' ∷ bs) ha hb e = absurd (NoNul-inside a _ _ ha.0 e)
join_fingerprint-injective a (a' ∷ as') b [] ha hb e = absurd (NoNul-inside b _ _ hb.0 (sym e))
join_fingerprint-injective a (a' ∷ as') b (b' ∷ bs) ha hb e =
    let (p, q) = split_nul a b ha.0 hb.0 e in
    let r : a' ∷ as' ≡ b' ∷ bs = join_fingerprint-injective a' as' b' bs ha.1 hb.1 q in cc (p, r)
