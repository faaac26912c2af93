-- ===== src/Tests/Credentials.antt =====
-- internal/controller/gitcred.go at concrete inputs.
use toggle_web_baker.Common.{◌≡◌, ◌≢◌, some, false, ◌↔◌, String, true, Option, none, [], ◌∷◌, Codes}
use toggle_web_baker.Cluster.{Container, PodSpec}
use toggle_web_baker.Controller.Credential.{GitAuth, decide_git_credential, add_git_credential}
use toggle_web_baker.Controller.Credential.Scope.{
  HostListed, Wired, decide_git_credential_iff, add_git_credential-scope,
}
use toggle_web_baker.Tests.Samples.{site, pod_spec}

abbrev git_auth : GitAuth
git_auth = record { secret_name = "git"; hosts = "github.com" ∷ [] }

abbrev no_url : Codes → Option Codes
no_url url = none

decide_git_credential_iff_example :
    (((decide_git_credential no_url site git_auth).sync_copy ≡ true) ↔ (
      (site.spec.repo_auth ≡ none) × (git_auth.secret_name ≢ "") × HostListed no_url site git_auth))
    × ((name : String)
        → site.spec.repo_auth ≡ some name
        → decide_git_credential no_url site git_auth
          ≡ record { sync_copy = false; secret_name = name })
    × (site.spec.repo_auth ≡ none
        → (decide_git_credential no_url site git_auth).sync_copy ≡ false
        → (decide_git_credential no_url site git_auth).secret_name ≡ "")
decide_git_credential_iff_example = decide_git_credential_iff no_url site git_auth

abbrev container_named : String → Container
container_named name = record {
  name = name;
  image = "img";
  env = [];
  volume_mounts = [];
  memory_limit = none;
  security_context = none;
}

abbrev build_pod : PodSpec
build_pod = record pod_spec {
  init_containers = container_named "clone" ∷ container_named "build" ∷ [];
  containers = container_named "copier" ∷ [];
}

add_git_credential-scope_example :
    Wired "clone" "github.com" build_pod.containers
      (add_git_credential build_pod "clone" "git" "github.com").containers
    × Wired "clone" "github.com" build_pod.init_containers
        (add_git_credential build_pod "clone" "git" "github.com").init_containers
    × (add_git_credential build_pod "clone" "git" "" ≡ build_pod)
add_git_credential-scope_example =
    add_git_credential-scope build_pod "clone" "git" "github.com" (λ e. cc e) (λ e. cc e)
