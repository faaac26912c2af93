-- ===== src/Controller/Conditions/Laws.antt =====
-- internal/controller/app_controller.go: what is found in the conditions after one was written.
use toggle_web_baker.Common.{
  ℕ, ◌≡◌, refl, ap, ◌∙◌, inl, inr, String, true, false, ◌&&◌, Option, none, some, List, [], ◌∷◌,
  str_eq, str_eq_self, eq_iff, Bool-cases,
}
use toggle_web_baker.Api.Status.{Condition, ConditionStatus, is_true, is_false, is_unknown}
use toggle_web_baker.Api.App.{App}
use toggle_web_baker.Controller.Conditions.{
  find_condition, same_status, over_existing, put_condition, set_condition, holds,
}

-- What is found under a type after a condition was written: that condition, with the old time where
-- status and reason did not change, and whatever was there under any other type.
abbrev pub merged : Condition → Option Condition → Condition
merged cond none = cond
merged cond (some existing) = over_existing cond existing

over_existing-type : (cond existing : Condition) → (over_existing cond existing).type_ ≡ cond.type_
unfolding over_existing
over_existing-type cond existing =
    elim (Bool-cases
      (same_status existing.status cond.status && str_eq existing.reason cond.reason)) [
        | inl y ↦ rw y
        | inr n ↦ rw n
      ]

-- A list whose first condition has the type that is written, or another.
put_condition-here :
    (c cond : Condition) (cs : List Condition)
    → str_eq c.type_ cond.type_ ≡ true
    → put_condition (c ∷ cs) cond ≡ over_existing cond c ∷ cs
unfolding put_condition
put_condition-here c cond cs h = rw h

put_condition-later :
    (c cond : Condition) (cs : List Condition)
    → str_eq c.type_ cond.type_ ≡ false
    → put_condition (c ∷ cs) cond ≡ c ∷ put_condition cs cond
unfolding put_condition
put_condition-later c cond cs h = rw h

find_condition-here :
    (c : Condition) (cs : List Condition) (t : String)
    → str_eq c.type_ t ≡ true
    → find_condition (c ∷ cs) t ≡ some c
unfolding find_condition
find_condition-here c cs t h = rw h

find_condition-later :
    (c : Condition) (cs : List Condition) (t : String)
    → str_eq c.type_ t ≡ false
    → find_condition (c ∷ cs) t ≡ find_condition cs t
unfolding find_condition
find_condition-later c cs t h = rw h

put_condition-nil : (cond : Condition) → put_condition [] cond ≡ cond ∷ []
unfolding put_condition
put_condition-nil cond = refl

-- Under the type that is written.
find-put_condition_same :
    (cs : List Condition) (cond : Condition)
    → find_condition (put_condition cs cond) cond.type_
      ≡ some (merged cond (find_condition cs cond.type_))
unfolding find_condition
find-put_condition_same [] cond =
    rw (put_condition-nil cond, find_condition-here cond [] cond.type_ (str_eq_self cond.type_))
find-put_condition_same (c ∷ cs) cond = elim (Bool-cases (str_eq c.type_ cond.type_)) [
  | inl y ↦ rw (
    put_condition-here c cond cs y,
    find_condition-here (over_existing cond c) cs cond.type_
        ((eq_iff _ _).1 (over_existing-type cond c)),
    find_condition-here c cs cond.type_ y,
  )
  | inr n ↦ rw (
    put_condition-later c cond cs n,
    find_condition-later c (put_condition cs cond) cond.type_ n,
    find_condition-later c cs cond.type_ n,
    find-put_condition_same cs cond,
  )
]

-- Under another type.
find-put_condition_other :
    (cs : List Condition) (cond : Condition) (t : String)
    → str_eq cond.type_ t ≡ false
    → find_condition (put_condition cs cond) t ≡ find_condition cs t
find-put_condition_other [] cond t h = rw (put_condition-nil cond, find_condition-later cond [] t h)
find-put_condition_other (c ∷ cs) cond t h = elim (Bool-cases (str_eq c.type_ cond.type_)) [
  | inl y ↦
      let other : str_eq c.type_ t ≡ false =
        ap (λ x. str_eq x t) ((eq_iff c.type_ cond.type_).0 y) ∙ h in
      let kept : str_eq (over_existing cond c).type_ t ≡ false =
        ap (λ x. str_eq x t) (over_existing-type cond c) ∙ h in
      rw (
        put_condition-here c cond cs y,
        find_condition-later (over_existing cond c) cs t kept,
        find_condition-later c cs t other,
      )
  | inr n ↦ elim (Bool-cases (str_eq c.type_ t)) [
    | inl y ↦ rw (
      put_condition-later c cond cs n,
      find_condition-here c (put_condition cs cond) t y,
      find_condition-here c cs t y,
    )
    | inr m ↦ rw (
      put_condition-later c cond cs n,
      find_condition-later c (put_condition cs cond) t m,
      find_condition-later c cs t m,
      find-put_condition_other cs cond t h,
    )
  ]
]

-- A condition is written again at a later time: the first writing stays.
over_existing-again :
    (cond existing : Condition) (later : ℕ)
    → same_status cond.status cond.status ≡ true
    → over_existing (record cond { last_transition_time = later }) (over_existing cond existing)
      ≡ over_existing cond existing
unfolding over_existing
over_existing-again cond existing later r =
    let same = str_eq_self cond.reason in
    elim (Bool-cases
      (same_status existing.status cond.status && str_eq existing.reason cond.reason)) [
        | inl y ↦ rw (y, r, same)
        | inr n ↦ rw (n, r, same)
      ]

same_status_self : (s : ConditionStatus) → same_status s s ≡ true
same_status_self is_true = refl
same_status_self is_false = refl
same_status_self is_unknown = refl

over_existing_self :
    (cond : Condition) (later : ℕ)
    → over_existing (record cond { last_transition_time = later }) cond ≡ cond
unfolding over_existing
over_existing_self cond later = rw (same_status_self cond.status, str_eq_self cond.reason)

put_condition-again :
    (cs : List Condition) (cond : Condition) (later : ℕ)
    → put_condition (put_condition cs cond) (record cond { last_transition_time = later })
      ≡ put_condition cs cond
put_condition-again [] cond later = rw (
  put_condition-nil cond,
  put_condition-here cond (record cond { last_transition_time = later }) []
      (str_eq_self cond.type_),
  over_existing_self cond later,
)
put_condition-again (c ∷ cs) cond later = elim (Bool-cases (str_eq c.type_ cond.type_)) [
  | inl y ↦ rw (
    put_condition-here c cond cs y,
    put_condition-here (over_existing cond c) (record cond { last_transition_time = later }) cs
        ((eq_iff _ _).1 (over_existing-type cond c)),
    over_existing-again cond c later (same_status_self cond.status),
  )
  | inr n ↦ rw (
    put_condition-later c cond cs n,
    put_condition-later c (record cond { last_transition_time = later }) (put_condition cs cond) n,
    put_condition-again cs cond later,
  )
]

-- The condition that `setCondition` builds.
abbrev pub written : ℕ → App → String → ConditionStatus → String → String → Condition
written now app t status reason msg = record {
  type_ = t;
  status = status;
  reason = reason;
  message = msg;
  last_transition_time = now;
  observed_generation = app.generation;
}

pub find-set_condition_other :
    (now : ℕ) (app : App) (t u reason msg : String) (status : ConditionStatus)
    → str_eq t u ≡ false
    → find_condition (set_condition now app t status reason msg).status.conditions u
      ≡ find_condition app.status.conditions u
unfolding set_condition
find-set_condition_other now app t u reason msg status h =
    find-put_condition_other app.status.conditions (written now app t status reason msg) u h

pub set_condition-again :
    (now later : ℕ) (app : App) (t reason msg : String) (status : ConditionStatus)
    → set_condition later (set_condition now app t status reason msg) t status reason msg
      ≡ set_condition now app t status reason msg
unfolding set_condition
set_condition-again now later app t reason msg status =
    ap (λ cs. record app { status = record app.status { conditions = cs } })
      (put_condition-again app.status.conditions (written now app t status reason msg) later)

merged-status : (cond : Condition) (o : Option Condition) → (merged cond o).status ≡ cond.status
unfolding over_existing
merged-status cond none = refl
merged-status cond (some existing) =
    elim (Bool-cases
      (same_status existing.status cond.status && str_eq existing.reason cond.reason)) [
        | inl y ↦ rw y
        | inr n ↦ rw n
      ]

-- The condition that was written holds where it was written as true.
pub holds-set_condition :
    (now : ℕ) (app : App) (t reason msg : String) (status : ConditionStatus)
    → holds (find_condition (set_condition now app t status reason msg).status.conditions t)
      ≡ same_status status is_true
unfolding set_condition
holds-set_condition now app t reason msg status =
    ap holds (find-put_condition_same app.status.conditions (written now app t status reason msg))
    ∙ ap (λ s. same_status s is_true)
        (merged-status (written now app t status reason msg)
          (find_condition app.status.conditions t))
