-- ===== src/Domain/RepoHost.antt =====
-- internal/domain/repohost.go: the host of a repository, against the allowlist of the credential.
-- `url.Parse(repo)` with `Hostname()` is the argument `url_hostname`: `none` where parsing fails.
pub mod Scp
use toggle_web_baker.Common.{
  ℕ, Bool, true, false, ◌||◌, Option, none, some, List, [], ◌∷◌, if◌then◌else◌, Codes, codes,
  codes_eq, contains, cut, after_last, to_lower, trim_space, Result, ok, err,
}

-- The errors of `RepoHost`, each for a `fmt.Errorf` of the source.
pub data RepoHostError : Type 0 where
  empty_url not_recognized not_parseable no_host : RepoHostError

abbrev pub lowered : Codes → Result RepoHostError Codes
lowered [] = err no_host
lowered (c ∷ host) = ok (to_lower (c ∷ host))

-- The scp-style branch: what stands before and after the first colon.
abbrev pub scp_host : Option (Codes × Codes) → Result RepoHostError Codes
scp_host none = err not_recognized
scp_host (some ([], path)) = err not_recognized
scp_host (some (c ∷ before, [])) = err not_recognized
scp_host (some (c ∷ before, d ∷ path)) = lowered (after_last b'@' (c ∷ before))

abbrev pub url_host : Option Codes → Result RepoHostError Codes
url_host none = err not_parseable
url_host (some host) = lowered host

-- The loop over the allowlist, with `strings.EqualFold`.
abbrev pub on_list : Codes → List Codes → Bool
on_list host [] = false
on_list host (h ∷ hosts) = codes_eq (to_lower host) (to_lower (trim_space h)) || on_list host hosts

abbrev pub host_on_list : Result RepoHostError Codes → List Codes → Bool
host_on_list (err _) hosts = false
host_on_list (ok host) hosts = on_list host hosts

module _ (url_hostname : Codes → Option Codes) where
  unfoldable pub repo_host : Codes → Result RepoHostError Codes
  repo_host url =
      let repo = trim_space url in
      if codes_eq repo []
      then err empty_url
      else if contains repo (codes "://")
      then url_host (url_hostname repo)
      else scp_host (cut b':' repo)

  unfoldable pub repo_host_allowed : Codes → List Codes → Bool
  repo_host_allowed repo hosts = host_on_list (repo_host repo) hosts
