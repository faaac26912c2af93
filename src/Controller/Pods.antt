-- ===== src/Controller/Pods.antt =====
-- internal/controller/app_controller.go and measure.go: the pods of a Job, and the container of a name
-- that terminated last in them.
pub mod Latest
use toggle_web_baker.Common.{
  ℕ, String, Bool, true, false, Option, none, some, List, [], ◌∷◌, ◌++◌, if◌then◌else◌, str_eq, ltb,
  first, keep, Map, Result, ok, err,
}
use toggle_web_baker.Api.App.{App}
use toggle_web_baker.Cluster.{Pod, Job, ContainerStatus, Terminated}
use toggle_web_baker.Controller.Exec.{Client, Run, query, owned_by_job}

-- The terminated containers of this name in one pod.
abbrev pub terminated_named : String → Pod → List ContainerStatus → List (Pod × Terminated)
terminated_named name p [] = []
terminated_named name p (cs ∷ statuses) =
    let rest = terminated_named name p statuses in
    if str_eq cs.name name
    then (elim cs.terminated [ none ↦ rest | some t ↦ (p, t) ∷ rest ])
    else rest

-- Those of the pods that the Job owns.
unfoldable pub candidates : String → Job → List Pod → List (Pod × Terminated)
unfolding owned_by_job
candidates name job [] = []
candidates name job (p ∷ pods) =
    let rest = candidates name job pods in
    if owned_by_job p job then terminated_named name p p.container_statuses ++ rest else rest

-- The loop: a candidate takes the place of an earlier one that finished before it.
abbrev pub latest_from :
    Option (Pod × Terminated) → List (Pod × Terminated) → Option (Pod × Terminated)
latest_from chosen [] = chosen
latest_from none (c ∷ cs) = latest_from (some c) cs
latest_from (some b) (c ∷ cs) =
    let newer = latest_from (some c) cs in
    let kept = latest_from (some b) cs in
    if ltb b.1.finished_at c.1.finished_at then newer else kept

unfoldable pub latest : String → Job → List Pod → Option (Pod × Terminated)
unfolding candidates
latest name job pods = latest_from none (candidates name job pods)

-- A list that cannot be read has no pods.
abbrev pub or_no_pods {ℓ} : {E : Type ℓ} → Result E (List Pod) → List Pod
or_no_pods (err e) = []
or_no_pods (ok pods) = pods

unfoldable pub first_owned : Job → List Pod → Option Pod
unfolding owned_by_job
first_owned job pods = first (λ p. owned_by_job p job) pods
