-- ===== src/Controller/Credential/Scope.antt =====
-- internal/controller/gitcred.go: which repositories and containers get a credential.
use toggle_web_baker.Common.{
  ◌≡◌, ◌≢◌, ◌++◌, refl, arith, eq_iff, In, ok, to_lower, trim_space, ◌↔◌, inl, inr, ap, String,
  Bool, true, false, not, Option, none, some, List, [], ◌∷◌, map, keep, str_eq, Codes, codes,
  Bool-cases,
}
use toggle_web_baker.Api.App.{App}
use toggle_web_baker.Cluster.{Container, PodSpec}
use toggle_web_baker.Domain.RepoHost.{repo_host, repo_host_allowed}
use toggle_web_baker.Domain.RepoHost.Scp.{repo_host_allowed_iff}
use toggle_web_baker.Controller.Credential.{
  GitAuth, enabled, GitCredentialDecision, of_override, offered, git_credential_secret_name,
  decide_git_credential, selected, with_credential, wire, add_git_credential,
}

of_override-sync :
    (d : GitCredentialDecision) (o : Option String)
    → ((of_override d o).sync_copy ≡ true) ↔ ((o ≡ none) × (d.sync_copy ≡ true))
of_override-sync d none = (λ h. (refl, h), λ h. h.1)
of_override-sync d (some name) = (λ h. cc h, λ h. cc (h.0))

offered-sync :
    (a b : Bool) (copy : String) → ((offered a b copy).sync_copy ≡ true) ↔ ((a ≡ true) × (b ≡ true))
offered-sync true true copy = (λ h. (refl, refl), λ h. refl)
offered-sync true false copy = (λ h. cc h, λ h. cc (h.1))
offered-sync false b copy = (λ h. cc h, λ h. cc (h.0))

nothing_mounted :
    (a b : Bool) (copy : String)
    → (offered a b copy).sync_copy ≡ false
    → (offered a b copy).secret_name ≡ ""
nothing_mounted true true copy h = cc h
nothing_mounted true false copy h = refl
nothing_mounted false b copy h = refl

-- The host of the App's repository can be read, and an entry of the operator's list is that host.
abbrev pub HostListed : (Codes → Option Codes) → App → GitAuth → Type 0
HostListed url_hostname app cfg =
    (host : Codes) × (repo_host url_hostname (codes app.spec.repo) ≡ ok host)
    × (entry : Codes) × In entry (map codes cfg.hosts)
    × (to_lower host ≡ to_lower (trim_space entry))

enabled-named : (cfg : GitAuth) → (enabled cfg ≡ true) ↔ (cfg.secret_name ≢ "")
unfolding enabled
enabled-named cfg = ground (arith, eq_iff cfg.secret_name "")

-- The decision on an App's credential. It is to copy the operator's own exactly where the App names no
-- Secret, the operator's Secret is named, and the host of the App's repository can be read and is an
-- entry of the operator's list up to case and surrounding space. Where the App names a Secret, that
-- one is mounted and nothing is copied; where it names none and there is nothing to copy, nothing is
-- mounted. Whether the copy can then be made is not part of the decision.
pub decide_git_credential_iff :
    (url_hostname : Codes → Option Codes) (app : App) (cfg : GitAuth)
    → (((decide_git_credential url_hostname app cfg).sync_copy ≡ true)
        ↔ ((app.spec.repo_auth ≡ none) × (cfg.secret_name ≢ "") × HostListed url_hostname app cfg))
      × ((name : String)
          → app.spec.repo_auth ≡ some name
          → decide_git_credential url_hostname app cfg
            ≡ record { sync_copy = false; secret_name = name })
      × (app.spec.repo_auth ≡ none
          → (decide_git_credential url_hostname app cfg).sync_copy ≡ false
          → (decide_git_credential url_hostname app cfg).secret_name ≡ "")
unfolding decide_git_credential
decide_git_credential_iff url_hostname app cfg =
    let allowed = repo_host_allowed url_hostname (codes app.spec.repo) (map codes cfg.hosts) in
    let copy = git_credential_secret_name app in
    let chosen = of_override-sync (offered (enabled cfg) allowed copy) app.spec.repo_auth in
    let given = offered-sync (enabled cfg) allowed copy in
    let host = repo_host_allowed_iff url_hostname (codes app.spec.repo) (map codes cfg.hosts) in
    (
      (
        λ h.
            let (o, d) = chosen.0 h in
            let (a, b) = given.0 d in (o, (enabled-named cfg).0 a, host.0 b),
        λ (o, a, b). chosen.1 (o, given.1 ((enabled-named cfg).1 a, host.1 b)),
      ),
      λ name e. rw e refl,
      λ e no_copy. rw e (nothing_mounted (enabled cfg) allowed copy (rw e at no_copy)),
    )

-- A container of this name, and the others.
abbrev pub named : String → Container → Bool
named name c = str_eq c.name name

-- The container with the directory and the host of the credential in its environment, and the directory
-- mounted.
abbrev pub credentialed : String → Container → Container
credentialed host c = record c {
  env =
      c.env
      ++ (record { name = "GIT_CREDENTIAL_DIR"; value = "/run/git-credential" }
          ∷ record { name = "GIT_CREDENTIAL_HOST"; value = host }
          ∷ []);
  volume_mounts =
      c.volume_mounts
      ++ (record { name = "git-credential"; mount_path = "/run/git-credential"; read_only = true }
          ∷ []);
}

wire-named :
    (name host : String) (cs : List Container)
    → str_eq name "" ≡ false
    → (keep (named name) (map (wire name host) cs) ≡ map (credentialed host) (keep (named name) cs))
      × (keep (λ c. not (named name c)) (map (wire name host) cs)
          ≡ keep (λ c. not (named name c)) cs)
unfolding wire selected with_credential
wire-named name host [] n = (refl, refl)
wire-named name host (c ∷ cs) n =
    let (its, others) = wire-named name host cs n in
    elim (Bool-cases (str_eq c.name name)) [
      | inl y ↦ rw (n, y) (rw y (ap (◌∷◌ (credentialed host c)) its, others))
      | inr f ↦ rw (n, f) (rw f (its, ap (◌∷◌ c) others))
    ]

-- Of the containers of a pod, those of the name get the credential, and the others stay as they were.
abbrev pub Wired : String → String → List Container → List Container → Type 0
Wired name host before after =
    (keep (named name) after ≡ map (credentialed host) (keep (named name) before))
    × (keep (λ c. not (named name c)) after ≡ keep (λ c. not (named name c)) before)

-- Wiring a credential for a container name, with a host that is known, gives the credential's
-- environment and mount to the containers of that name, among the main and the init containers, and
-- leaves the containers of any other name as they were. Where no host is known it leaves the whole
-- pod as it was.
pub add_git_credential-scope :
    (pod : PodSpec) (name secret_name host : String)
    → name ≢ ""
    → host ≢ ""
    → Wired name host pod.containers (add_git_credential pod name secret_name host).containers
      × Wired name host pod.init_containers
          (add_git_credential pod name secret_name host).init_containers
      × (add_git_credential pod name secret_name "" ≡ pod)
unfolding add_git_credential
add_git_credential-scope pod name secret_name host n h =
    let no_name : str_eq name "" ≡ false = ground (arith, eq_iff name "") in
    let no_host : str_eq host "" ≡ false = ground (arith, eq_iff host "") in
    rw no_host (
      wire-named name host pod.containers no_name,
      wire-named name host pod.init_containers no_name,
      refl,
    )
