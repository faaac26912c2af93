-- ===== src/Domain/RepoHost/Scp.antt =====
-- Which repositories of internal/domain/repohost.go are placed on which host.
use toggle_web_baker.Common.{
  ℕ, ◌≡◌, refl, ap, ◌↔◌, true, false, ◌==◌, Option, none, some, List, [], ◌∷◌, ◌++◌, Codes, codes,
  codes_eq, codes_eq→eq, codes_eq_self, contains, cut, after_last, to_lower, trim_space, ok, err,
  All, All-append, In, here, there, arith, Bool-cases, inl, inr,
}
use toggle_web_baker.Domain.RepoHost.{
  lowered, scp_host, repo_host, on_list, host_on_list, repo_host_allowed,
}

abbrev pub Lacks : ℕ → Codes → Type 0
Lacks c = All (λ d. (d == c) ≡ false)

cut-none : (c : ℕ) (s : Codes) → Lacks c s → cut c s ≡ none
cut-none c [] h = refl
cut-none c (d ∷ s) h = rw (h.0, cut-none c s h.1) refl

cut-append : (c : ℕ) (s t : Codes) → Lacks c s → cut c (s ++ c ∷ t) ≡ some (s, t)
cut-append c [] t h = ground arith
cut-append c (d ∷ s) t h = rw (h.0, cut-append c s t h.1) refl

after_last_none : (c : ℕ) (s : Codes) → Lacks c s → after_last c s ≡ s
after_last_none c [] h = refl
after_last_none c (d ∷ s) h = rw (h.0, cut-none c s h.1) refl

cut-some-append : (c : ℕ) (s t : Codes) → (p : Codes × Codes) × (cut c (s ++ c ∷ t) ≡ some p)
cut-some-append c [] t = (([], t), ground arith)
cut-some-append c (d ∷ s) t = elim (Bool-cases (d == c)) [
  | inl e ↦ (([], s ++ c ∷ t), rw e refl)
  | inr e ↦ let (p, q) = cut-some-append c s t in ((d ∷ p.0, p.1), rw (e, q) refl)
]

after_last-append : (c : ℕ) (s t : Codes) → Lacks c t → after_last c (s ++ c ∷ t) ≡ t
after_last-append c [] t h = rw (cut-none c t h) (ground arith)
after_last-append c (d ∷ s) t h =
    let (p, q) = cut-some-append c s t in
    elim (Bool-cases (d == c)) [
      | inl e ↦ rw (e, q) (after_last-append c s t h)
      | inr e ↦ rw (e, q) (after_last-append c s t h)
    ]

on_list-In :
    (host : Codes) (hosts : List Codes)
    → on_list host hosts ≡ true
    → (entry : Codes) × In entry hosts × (to_lower host ≡ to_lower (trim_space entry))
on_list-In host [] e = cc
on_list-In host (x ∷ hosts) e =
    elim (Bool-cases (codes_eq (to_lower host) (to_lower (trim_space x)))) [
      | inl s ↦ (x, here, codes_eq→eq _ _ s)
      | inr f ↦ let (entry, i, q) = on_list-In host hosts (rw f at e) in (entry, there i, q)
    ]

on_list_of :
    (host : Codes) (hosts : List Codes) {entry : Codes}
    → In entry hosts
    → to_lower host ≡ to_lower (trim_space entry)
    → on_list host hosts ≡ true
on_list_of host [] i q = elim i [ ]
on_list_of host (entry ∷ hosts) here q = rw (q, codes_eq_self (to_lower (trim_space entry))) refl
on_list_of host (x ∷ hosts) (there i) q = rw (on_list_of host hosts i q) (ground arith)

module _ (url_hostname : Codes → Option Codes) where
  -- An scp-style address `user@host:path` with a host and a path, and with no blank around it and no
  -- `://` in it, is placed on its host in lower case, where user and host have no colon and the host
  -- has no `@`.
  pub repo_host-scp :
      (user : Codes) (h : ℕ) (host : Codes) (p : ℕ) (path : Codes)
      → Lacks b':' user
      → Lacks b':' (h ∷ host)
      → Lacks b'@' (h ∷ host)
      → (let repo = (user ++ b'@' ∷ h ∷ host) ++ b':' ∷ p ∷ path in
          (trim_space repo ≡ repo) × (contains repo (codes "://") ≡ false))
      → repo_host url_hostname ((user ++ b'@' ∷ h ∷ host) ++ b':' ∷ p ∷ path)
        ≡ ok (to_lower (h ∷ host))
  unfolding repo_host
  repo_host-scp user h host p path lu lh la (t, c) =
      rw
        (
          t,
          nonempty user,
          c,
          cut-append b':' (user ++ b'@' ∷ h ∷ host) (p ∷ path)
              (All-append _ user (b'@' ∷ h ∷ host) lu (refl, lh)),
        )
        (scp user)
    where
      nonempty : (s : Codes) → codes_eq ((s ++ b'@' ∷ h ∷ host) ++ b':' ∷ p ∷ path) [] ≡ false
      nonempty [] = refl
      nonempty (x ∷ s) = refl

      scp :
          (s : Codes) → scp_host (some (s ++ b'@' ∷ h ∷ host, p ∷ path)) ≡ ok (to_lower (h ∷ host))
      scp [] = ap lowered (after_last-append b'@' [] (h ∷ host) la)
      scp (x ∷ s) = ap lowered (after_last-append b'@' (x ∷ s) (h ∷ host) la)

  -- A repository is allowed exactly when its host can be read and an entry of the list, trimmed,
  -- is that host up to case. A repository that cannot be placed on a host is never allowed.
  pub repo_host_allowed_iff :
      (repo : Codes) (hosts : List Codes)
      → (repo_host_allowed url_hostname repo hosts ≡ true) ↔ (
          (host : Codes) × (repo_host url_hostname repo ≡ ok host)
          × (entry : Codes) × In entry hosts
          × (to_lower host ≡ to_lower (trim_space entry)))
  unfolding repo_host_allowed
  repo_host_allowed_iff repo hosts =
      elim (repo_host url_hostname repo)
        as (λ r. (host_on_list r hosts ≡ true) ↔ (
          (host : Codes) × (r ≡ ok host)
          × (entry : Codes) × In entry hosts
          × (to_lower host ≡ to_lower (trim_space entry)))) [
            | ok host ↦ (
              λ e. let (entry, i, q) = on_list-In host hosts e in (host, refl, entry, i, q),
              λ (host', e, entry, i, q). on_list_of host hosts i (ground (arith, q)),
            )
            | err x ↦ (λ e. cc, λ (host', e, _, _, _). cc)
          ]
