-- ===== src/Controller/History/Rings.antt =====
-- The build histories of internal/controller/buildsteps.go as rings.
use toggle_web_baker.Common.{
  All-of, ℕ, zero, suc, ◌≤◌, ◌≡◌, refl, ap, sym, ◌⊎◌, inl, inr, String, true, false, List, [], ◌∷◌,
  str_eq, eq_iff, str_cases, any, take, map, map-take, length, length-take-le, All, All-take, In,
  here, there, In-cons, arith, Bool-cases, subst,
}
use toggle_web_baker.Api.Status.{BuildStatus, BuildResult}
use toggle_web_baker.Controller.History.{
  replace, append_build_history, trim_to_failed_step, is_failed, append_failed_build_history,
}

abbrev pub job_names : List BuildStatus → List String
job_names = map (λ h. h.job_name)

-- No name stands twice in the list.
abbrev pub Distinct : List String → Type 0
Distinct [] = Unit
Distinct (n ∷ names) = All (λ m. str_eq m n ≡ false) names × Distinct names

Distinct-take : (k : ℕ) (names : List String) → Distinct names → Distinct (take k names)
Distinct-take zero names d = tt
Distinct-take (suc k) [] d = tt
Distinct-take (suc k) (n ∷ names) d = (All-take _ k names d.0, Distinct-take k names d.1)

-- A ring: one record for each build, at most `max` of them.
pub record IsRing (max : ℕ) (history : List BuildStatus) : Type 0 where
  pub distinct : Distinct (job_names history)
  pub capped : length history ≤ max

job_names-replace :
    (rec : BuildStatus) (history : List BuildStatus)
    → job_names (replace rec history) ≡ job_names history
job_names-replace rec [] = refl
job_names-replace rec (h ∷ history) = elim (str_cases h.job_name rec.job_name) [
  | inl e ↦ rw ((eq_iff h.job_name rec.job_name).1 e) (ap (λ n. n ∷ job_names history) (sym e))
  | inr n ↦ rw n (ap (◌∷◌ h.job_name) (job_names-replace rec history))
]

length-replace :
    (rec : BuildStatus) (history : List BuildStatus) → length (replace rec history) ≡ length history
length-replace rec [] = refl
length-replace rec (h ∷ history) = ground (arith, length-replace rec history)

absent :
    (rec : BuildStatus) (history : List BuildStatus)
    → any (λ h. str_eq h.job_name rec.job_name) history ≡ false
    → All (λ m. str_eq m rec.job_name ≡ false) (job_names history)
absent rec [] h = tt
absent rec (x ∷ history) h = (ground arith, absent rec history (ground arith))

-- Recording a build keeps the history a ring: a build is never there twice and the cap is kept.
pub append_build_history-IsRing :
    (history : List BuildStatus) (rec : BuildStatus) (max : ℕ)
    → IsRing max history
    → IsRing max (append_build_history history rec max)
unfolding append_build_history
append_build_history-IsRing history rec max r =
    elim (Bool-cases (any (λ h. str_eq h.job_name rec.job_name) history)) [
      | inl old ↦ rw old (record {
        distinct = rw (job_names-replace rec history) r.distinct;
        capped = rw (length-replace rec history) r.capped;
      })
      | inr new ↦ rw new (record {
        distinct =
            rw (map-take (λ (h : BuildStatus). h.job_name) max (rec ∷ history))
              (Distinct-take max _ (absent rec history new, r.distinct));
        capped = length-take-le max (rec ∷ history);
      })
    ]

replace-In :
    (rec : BuildStatus) (history : List BuildStatus)
    → any (λ h. str_eq h.job_name rec.job_name) history ≡ true
    → In rec (replace rec history)
replace-In rec [] h = cc
replace-In rec (x ∷ history) h = elim (Bool-cases (str_eq x.job_name rec.job_name)) [
  | inl e ↦ rw e here
  | inr n ↦ rw n (there (replace-In rec history (rw n at h)))
]

In-replace :
    (rec : BuildStatus) (history : List BuildStatus) (b : BuildStatus)
    → In b (replace rec history)
    → (b ≡ rec) ⊎ In b history
In-replace rec [] b i = inr i
In-replace rec (x ∷ history) b i = elim (Bool-cases (str_eq x.job_name rec.job_name)) [
  | inl e ↦ old (rw e at i)
  | inr n ↦ new (In-replace rec history b) (rw n at i)
]
  where
    old : In b (rec ∷ history) → (b ≡ rec) ⊎ In b (x ∷ history)
    old j = elim (In-cons rec b history j) [ inl e ↦ inl e | inr k ↦ inr (there k) ]

    new :
        (In b (replace rec history) → (b ≡ rec) ⊎ In b history)
        → In b (x ∷ replace rec history)
        → (b ≡ rec) ⊎ In b (x ∷ history)
    new rest j = elim (In-cons x b (replace rec history) j) [
      | inl e ↦ inr (subst (λ c. In c (x ∷ history)) (sym e) here)
      | inr k ↦ elim (rest k) [ inl e ↦ inl e | inr m ↦ inr (there m) ]
    ]

In-take {ℓ} : {A : Type ℓ} (n : ℕ) (xs : List A) (a : A) → In a (take n xs) → In a xs
In-take zero xs a i = elim i [ ]
In-take (suc n) [] a i = i
In-take (suc n) (x ∷ xs) a here = here
In-take (suc n) (x ∷ xs) a (there i) = there (In-take n xs a i)

append_build_history-members :
    (history : List BuildStatus) (rec : BuildStatus) (max : ℕ)
    → 1 ≤ max
    → In rec (append_build_history history rec max)
      × ((b : BuildStatus) → In b (append_build_history history rec max) → (b ≡ rec) ⊎ In b history)
unfolding append_build_history
append_build_history-members history rec zero h = absurd (omega arith)
append_build_history-members history rec (suc max) h =
    elim (Bool-cases (any (λ h. str_eq h.job_name rec.job_name) history)) [
      | inl old ↦ rw old (replace-In rec history old, In-replace rec history)
      | inr new ↦ rw new (here, prepended)
    ]
  where
    prepended : (b : BuildStatus) → In b (rec ∷ take max history) → (b ≡ rec) ⊎ In b history
    prepended b i = elim (In-cons rec b (take max history) i) [
      | inl e ↦ inl e
      | inr j ↦ inr (In-take max history b j)
    ]

-- With a cap of at least one, a build that ended is in the history afterwards, and every record of
-- the history is it or was there before.
pub append_build_history-records :
    (history : List BuildStatus) (rec : BuildStatus) (max : ℕ)
    → 1 ≤ max
    → In rec (append_build_history history rec max)
      × All (λ b. (b ≡ rec) ⊎ In b history) (append_build_history history rec max)
append_build_history-records history rec max h =
    let (i, members) = append_build_history-members history rec max h in
    (i, All-of (λ b. (b ≡ rec) ⊎ In b history) (append_build_history history rec max) members)

failed_cases : (r : BuildResult) → (r ≡ BuildResult.failed) ⊎ (is_failed r ≡ false)
failed_cases BuildResult.failed = inl refl
failed_cases BuildResult.unset = inr refl
failed_cases BuildResult.succeeded = inr refl
failed_cases BuildResult.aborted = inr refl

-- A record of the failed ring: a failed build, trimmed to one step at most.
pub record IsTrimmed (b : BuildStatus) : Type 0 where
  pub failed : b.result ≡ BuildResult.failed
  pub one_step : length b.steps ≤ 1

trim_to_failed_step-IsTrimmed :
    (rec : BuildStatus) → rec.result ≡ BuildResult.failed → IsTrimmed (trim_to_failed_step rec)
unfolding trim_to_failed_step
trim_to_failed_step-IsTrimmed rec h = record { failed = h; one_step = ground arith }

All-replace :
    (P : BuildStatus → Type 0) (rec : BuildStatus) (history : List BuildStatus)
    → P rec
    → All P history
    → All P (replace rec history)
All-replace P rec [] p h = tt
All-replace P rec (x ∷ history) p h = elim (Bool-cases (str_eq x.job_name rec.job_name)) [
  | inl e ↦ rw e (p, h.1)
  | inr n ↦ rw n (h.0, All-replace P rec history p h.1)
]

All-append_build_history :
    (P : BuildStatus → Type 0) (history : List BuildStatus) (rec : BuildStatus) (max : ℕ)
    → P rec
    → All P history
    → All P (append_build_history history rec max)
unfolding append_build_history
All-append_build_history P history rec max p h =
    elim (Bool-cases (any (λ h. str_eq h.job_name rec.job_name) history)) [
      | inl old ↦ rw old (All-replace P rec history p h)
      | inr new ↦ rw new (All-take P max (rec ∷ history) (p, h))
    ]

-- A ring of failed builds with one step at most each stays one whatever build is offered to it, and
-- it changes only for a build that failed.
pub append_failed_build_history-IsRing :
    (history : List BuildStatus) (rec : BuildStatus) (max : ℕ)
    → IsRing max history
    → All IsTrimmed history
    → IsRing max (append_failed_build_history history rec max)
      × All IsTrimmed (append_failed_build_history history rec max)
      × ((rec.result ≡ BuildResult.failed)
          ⊎ (append_failed_build_history history rec max ≡ history))
unfolding append_failed_build_history
append_failed_build_history-IsRing history rec max r t = elim (failed_cases rec.result) [
  | inl e ↦
      let y : is_failed rec.result ≡ true = ap is_failed e in
      (
        rw y (append_build_history-IsRing history (trim_to_failed_step rec) max r),
        rw y (
            All-append_build_history IsTrimmed history (trim_to_failed_step rec) max
              (trim_to_failed_step-IsTrimmed rec e) t),
        inl e,
      )
  | inr n ↦ (rw n r, rw n t, inr (rw n refl))
]
