-- ===== src/Controller/Pods/Latest.antt =====
-- Which container is read: one of the Job's own pods, and none of them finished after it.
use toggle_web_baker.Common.{
  ℕ, ◌≤◌, ◌<◌, String, true, false, ◌≡◌, ap, sym, ◌∙◌, subst, none, some, List, [], ◌∷◌, ◌++◌,
  str_eq, ltb, ltb→lt, All, In, In-cons, Option-cases, here, there, inl, inr, Bool-cases, arith,
  ◌⊎◌, ◌&&◌, ◌||◌, any, eq_iff, All-in, In-append_left, In-append_right,
}
use mathlib.Core.Option.{some-injective, none-ne-some}
use toggle_web_baker.Cluster.{OwnerReference, Pod, Job, ContainerStatus, Terminated}
use toggle_web_baker.Controller.Exec.{is_controller_with, owned_by_job}
use toggle_web_baker.Controller.Pods.{terminated_named, candidates, latest_from, latest}

abbrev finish : Pod × Terminated → ℕ
finish c = c.1.finished_at

-- No candidate finished after `c`.
abbrev pub IsLatest : Pod × Terminated → List (Pod × Terminated) → Type 0
IsLatest c cs = All (λ d. finish d ≤ finish c) cs

ltb-false : (a b : ℕ) → ltb a b ≡ false → b ≤ a
ltb-false a b h = ground arith

latest_from-some :
    (b c : Pod × Terminated) (cs : List (Pod × Terminated))
    → latest_from (some b) cs ≡ some c
    → (finish b ≤ finish c) × IsLatest c cs × ((c ≡ b) ⊎ In c cs)
latest_from-some b c [] h =
    let e : b ≡ c = some-injective _ _ h in
    (subst (λ d. finish b ≤ finish d) e (omega arith), tt, inl (sym e))
latest_from-some b c (d ∷ cs) h = elim (Bool-cases (ltb (finish b) (finish d))) [
  | inl y ↦
      let (above, all_below, place) = latest_from-some d c cs (rw y at h) in
      let less : finish b < finish d = ltb→lt (finish b) (finish d) y in
      (omega arith, (above, all_below), inr (found place))
  | inr n ↦
      let (above, all_below, place) = latest_from-some b c cs (rw n at h) in
      let less : finish d ≤ finish b = ltb-false (finish b) (finish d) n in
      (omega arith, (omega arith, all_below), later place)
]
  where
    found : (c ≡ d) ⊎ In c cs → In c (d ∷ cs)
    found (inl e) = subst (λ x. In x (d ∷ cs)) (sym e) here
    found (inr i) = there i

    later : (c ≡ b) ⊎ In c cs → (c ≡ b) ⊎ In c (d ∷ cs)
    later (inl e) = inl e
    later (inr i) = inr (there i)

latest_from-none :
    (c : Pod × Terminated) (cs : List (Pod × Terminated))
    → latest_from none cs ≡ some c
    → In c cs × IsLatest c cs
latest_from-none c [] h = absurd (none-ne-some _ h)
latest_from-none c (d ∷ cs) h =
    let (above, all_below, place) = latest_from-some d c cs h in (found place, (above, all_below))
  where
    found : (c ≡ d) ⊎ In c cs → In c (d ∷ cs)
    found (inl e) = subst (λ x. In x (d ∷ cs)) (sym e) here
    found (inr i) = there i

-- The Job is the controller of the pod: an owner reference says so, with the uid of the Job.
abbrev pub OwnedBy : Pod → Job → Type 0
OwnedBy pod job =
    (ref : OwnerReference) × In ref pod.owner_references
    × (ref.controller ≡ some true)
    × (ref.uid ≡ job.uid)

-- The pod has a container of this name that terminated so.
abbrev pub Ended : String → Pod × Terminated → Type 0
Ended name c =
    (cs : ContainerStatus) × In cs c.0.container_statuses
    × (cs.name ≡ name)
    × (cs.terminated ≡ some c.1)

-- A container of this name that terminated, in one of the pods, which the Job owns.
abbrev pub IsOwn : String → Job → List Pod → Pod × Terminated → Type 0
IsOwn name job pods c = In c.0 pods × OwnedBy c.0 job × Ended name c

controls :
    (uid : String) (ref : OwnerReference)
    → is_controller_with uid ref ≡ true
    → (ref.controller ≡ some true) × (ref.uid ≡ uid)
controls uid ref h = elim (Option-cases ref.controller) [
  | inl e ↦ cc (rw (e, is_controller_with) at h)
  | inr (b, e) ↦
      let k : b && str_eq ref.uid uid ≡ true = rw (e, is_controller_with) at h in
      let set : b ≡ true = ground (arith, k) in
      let same : str_eq ref.uid uid ≡ true = ground (arith, k) in
      (e ∙ ap some set, (eq_iff ref.uid uid).0 same)
]

owned-OwnedBy : (pod : Pod) (job : Job) → owned_by_job pod job ≡ true → OwnedBy pod job
unfolding owned_by_job
owned-OwnedBy pod job h = of_references pod.owner_references h
  where
    of_references :
        (refs : List OwnerReference)
        → any (is_controller_with job.uid) refs ≡ true
        → (ref : OwnerReference) × In ref refs × (ref.controller ≡ some true) × (ref.uid ≡ job.uid)
    of_references [] h = cc h
    of_references (ref ∷ refs) h = elim (Bool-cases (is_controller_with job.uid ref)) [
      | inl y ↦ let (c, u) = controls job.uid ref y in (ref, here, c, u)
      | inr n ↦ let (found, i, c, u) = of_references refs (rw n at h) in (found, there i, c, u)
    ]

OwnedBy-owned : (pod : Pod) (job : Job) → OwnedBy pod job → owned_by_job pod job ≡ true
unfolding owned_by_job
OwnedBy-owned pod job (ref, i, c, u) = among pod.owner_references i
  where
    is_it : is_controller_with job.uid ref ≡ true
    is_it = rw (c, is_controller_with) ((eq_iff ref.uid job.uid).1 u)

    among :
        (refs : List OwnerReference) → In ref refs → any (is_controller_with job.uid) refs ≡ true
    among [] j = elim j [ ]
    among (_ ∷ refs) here = ap (λ x. x || any (is_controller_with job.uid) refs) is_it
    among (other ∷ refs) (there j) = rw (among refs j) (ground arith)

abbrev Named : String → Pod → List ContainerStatus → Pod × Terminated → Type 0
Named name p statuses c =
    (c.0 ≡ p)
    × ((cs : ContainerStatus) × In cs statuses × (cs.name ≡ name) × (cs.terminated ≡ some c.1))

Named-there :
    (name : String) (p : Pod) (cs : ContainerStatus) (statuses : List ContainerStatus)
    (c : Pod × Terminated)
    → Named name p statuses c
    → Named name p (cs ∷ statuses) c
Named-there name p cs statuses c (e, (d, i, n, t)) = (e, (d, there i, n, t))

terminated_named-Named :
    (name : String) (p : Pod) (statuses : List ContainerStatus) (c : Pod × Terminated)
    → In c (terminated_named name p statuses)
    → Named name p statuses c
terminated_named-Named name p [] c i = elim i [ ]
terminated_named-Named name p (cs ∷ statuses) c i =
    let later = λ (j : In c (terminated_named name p statuses)).
      Named-there name p cs statuses c (terminated_named-Named name p statuses c j) in
    elim (Bool-cases (str_eq cs.name name)) [
      | inr n ↦ later (rw n at i)
      | inl y ↦ elim (Option-cases cs.terminated) [
        | inl none_there ↦ later (rw (y, none_there) at i)
        | inr (t, there_is) ↦
            elim (In-cons (p, t) c (terminated_named name p statuses) (rw (y, there_is) at i)) [
              | inl e ↦ (
                ap (λ x. x.0) e,
                (cs, here, (eq_iff cs.name name).0 y, there_is ∙ ap some (sym (ap (λ x. x.1) e))),
              )
              | inr j ↦ later j
            ]
      ]
    ]

In-append :
    (xs ys : List (Pod × Terminated)) (c : Pod × Terminated) → In c (xs ++ ys) → In c xs ⊎ In c ys
In-append [] ys c i = inr i
In-append (x ∷ xs) ys c i = elim (In-cons x c (xs ++ ys) i) [
  | inl e ↦ inl (subst (λ y. In y (x ∷ xs)) (sym e) here)
  | inr j ↦ elim (In-append xs ys c j) [ inl k ↦ inl (there k) | inr k ↦ inr k ]
]

candidates-IsOwn :
    (name : String) (job : Job) (pods : List Pod) (c : Pod × Terminated)
    → In c (candidates name job pods)
    → IsOwn name job pods c
unfolding candidates
candidates-IsOwn name job [] c i = elim i [ ]
candidates-IsOwn name job (p ∷ pods) c i =
    let later : In c (candidates name job pods) → IsOwn name job (p ∷ pods) c = λ j.
      let (place, own, ended) = candidates-IsOwn name job pods c j in (there place, own, ended) in
    elim (Bool-cases (owned_by_job p job)) [
      | inr n ↦ later (rw n at i)
      | inl y ↦
          elim (In-append (terminated_named name p p.container_statuses) (candidates name job pods)
            c (rw y at i)) [
              | inr j ↦ later j
              | inl j ↦
                  let (e, found) = terminated_named-Named name p p.container_statuses c j in
                  subst (λ q. In q (p ∷ pods) × OwnedBy q job × Ended name (q, c.1)) (sym e)
                    (here, owned-OwnedBy p job y, found)
            ]
    ]

terminated_named-In :
    (name : String) (p : Pod) (statuses : List ContainerStatus) (t : Terminated)
    (cs : ContainerStatus)
    → In cs statuses
    → cs.name ≡ name
    → cs.terminated ≡ some t
    → In (p, t) (terminated_named name p statuses)
terminated_named-In name p [] t cs i n e = elim i [ ]
terminated_named-In name p (_ ∷ statuses) t cs here n e = rw ((eq_iff cs.name name).1 n, e) here
terminated_named-In name p (d ∷ statuses) t cs (there i) n e =
    let rest = terminated_named-In name p statuses t cs i n e in
    elim (Bool-cases (str_eq d.name name)) [
      | inr f ↦ rw f rest
      | inl y ↦ elim (Option-cases d.terminated) [
        | inl none_there ↦ rw (y, none_there) rest
        | inr (u, there_is) ↦ rw (y, there_is) (there rest)
      ]
    ]

IsOwn-candidates :
    (name : String) (job : Job) (pods : List Pod) (c : Pod × Terminated)
    → IsOwn name job pods c
    → In c (candidates name job pods)
unfolding candidates
IsOwn-candidates name job [] c (i, own, ended) = elim i [ ]
IsOwn-candidates name job (_ ∷ pods) (p, t) (here, own, (cs, i, n, e)) =
    rw (OwnedBy-owned p job own) (
      In-append_left (candidates name job pods)
        (terminated_named-In name p p.container_statuses t cs i n e))
IsOwn-candidates name job (q ∷ pods) c (there i, own, ended) =
    let rest = IsOwn-candidates name job pods c (i, own, ended) in
    elim (Bool-cases (owned_by_job q job)) [
      | inl y ↦ rw y (In-append_right (terminated_named name q q.container_statuses) rest)
      | inr n ↦ rw n rest
    ]

-- The container that is read, for the copier's message or for a measurement, is in one of the listed
-- pods, which has an owner reference to this Job, by its uid, as its controller; it has the name that
-- is asked for and has terminated, and no other such container of the listed pods finished after it.
-- So a pod that an earlier Job, of another uid, left behind is never read.
pub latest-IsOwn :
    (name : String) (job : Job) (pods : List Pod) (c : Pod × Terminated)
    → latest name job pods ≡ some c
    → IsOwn name job pods c
      × ((d : Pod × Terminated) → IsOwn name job pods d → d.1.finished_at ≤ c.1.finished_at)
unfolding latest
latest-IsOwn name job pods c h =
    let (place, newest) = latest_from-none c (candidates name job pods) h in
    (
      candidates-IsOwn name job pods c place,
      λ d own. All-in (λ d. finish d ≤ finish c) (IsOwn-candidates name job pods d own) newest,
    )
