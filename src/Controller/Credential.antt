-- ===== src/Controller/Credential.antt =====
-- internal/controller/gitcred.go: which git credential an App gets, and how it is wired into a pod.
-- `GitAuth` is of config.go. `url_hostname` is that of Domain/RepoHost.
pub mod Scope
use Prim.Native.String.{◌++◌ as str_append}
use toggle_web_baker.Common.{
  String, Bool, true, false, not, ◌&&◌, ◌||◌, Option, none, some, List, [], ◌∷◌, ◌++◌, map,
  if◌then◌else◌, str_eq, Codes, codes,
}
use toggle_web_baker.Api.App.{App}
use toggle_web_baker.Cluster.{EnvVar, VolumeMount, VolumeSource, secret, Volume, Container, PodSpec}
use toggle_web_baker.Domain.RepoHost.{repo_host_allowed}

pub record GitAuth : Type 0 where
  pub secret_name : String
  pub hosts : List String

unfoldable pub enabled : GitAuth → Bool
enabled g = not (str_eq g.secret_name "")

pub record GitCredentialDecision : Type 0 where
  pub sync_copy : Bool
  pub secret_name : String

unfoldable pub mounts : GitCredentialDecision → Bool
mounts d = not (str_eq d.secret_name "")

unfoldable pub git_credential_secret_name : App → String
git_credential_secret_name app = str_append app.name "-git-credential"

abbrev pub of_override : GitCredentialDecision → Option String → GitCredentialDecision
of_override otherwise none = otherwise
of_override otherwise (some name) = record { sync_copy = false; secret_name = name }

-- The copy, where the operator has a credential and the host is allowed, or none.
abbrev pub offered : Bool → Bool → String → GitCredentialDecision
offered is_enabled allowed copy =
    if is_enabled && allowed
    then record { sync_copy = true; secret_name = copy }
    else record { sync_copy = false; secret_name = "" }

unfoldable pub decide_git_credential :
    (Codes → Option Codes) → App → GitAuth → GitCredentialDecision
unfolding enabled git_credential_secret_name
decide_git_credential url_hostname app cfg =
    of_override
      (offered (enabled cfg)
        (repo_host_allowed url_hostname (codes app.spec.repo) (map codes cfg.hosts))
        (git_credential_secret_name app))
      app.spec.repo_auth

unfoldable pub git_credential_volume : String → Volume
git_credential_volume name = record {
  name = "git-credential";
  source = secret name ("username" ∷ "password" ∷ []);
}

-- `containerName != "" && name != containerName` passes a container over.
unfoldable pub selected : String → Container → Bool
selected container_name c = str_eq container_name "" || str_eq c.name container_name

unfoldable pub with_credential : String → Container → Container
with_credential host c = record c {
  env =
      c.env
      ++ (record { name = "GIT_CREDENTIAL_DIR"; value = "/run/git-credential" }
          ∷ record { name = "GIT_CREDENTIAL_HOST"; value = host }
          ∷ []);
  volume_mounts =
      c.volume_mounts
      ++ (record { name = "git-credential"; mount_path = "/run/git-credential"; read_only = true }
          ∷ []);
}

unfoldable pub wire : String → String → Container → Container
unfolding with_credential selected
wire container_name host c = if selected container_name c then with_credential host c else c

unfoldable pub add_git_credential : PodSpec → String → String → String → PodSpec
unfolding wire git_credential_volume
add_git_credential pod container_name secret_name host =
    if str_eq host "" then pod else record pod {
      volumes = pod.volumes ++ git_credential_volume secret_name ∷ [];
      containers = map (wire container_name host) pod.containers;
      init_containers = map (wire container_name host) pod.init_containers;
    }
