-- ===== src/Controller/Cleanup/Job/Privileges.antt =====
-- internal/controller/cleanup.go: the least privilege of a cleanup pod.
use toggle_web_baker.Common.{
  ◌≡◌, refl, ◌↔◌, arith, ◌≢◌, inl, inr, ap, ◌∙◌, sym, String, Bool, true, false, not, ◌||◌, Option,
  none, some, [], ◌∷◌, eq_iff, str_cases, Bool-cases, str_ne,
}
use mathlib.Core.Option.{some-injective, none-ne-some}
use toggle_web_baker.Common.Int.{ℤ, pos, eqb_ℤ, eqb_ℤ→eq, eqb_ℤ-self}
use toggle_web_baker.Api.Spec.{AppSpec}
use toggle_web_baker.Cluster.{SecurityContext}
use toggle_web_baker.Controller.Cleanup.Job.{
  mode_releases, shared_uid, cache_writer_uid, of_writer, root_cleanup, cleanup_security_context,
}

eqb_ℤ-ne : (a b : ℤ) → a ≢ b → eqb_ℤ a b ≡ false
eqb_ℤ-ne a b n = elim (Bool-cases (eqb_ℤ a b)) [ inl y ↦ absurd (n (eqb_ℤ→eq a b y)) | inr f ↦ f ]

or_right : (a b : Bool) → a || b ≡ false → b ≡ false
or_right true b h = cc
or_right false b h = h

shared_uid-nonzero :
    (su bu : Option ℤ) (uid : ℤ) → shared_uid su bu ≡ some uid → eqb_ℤ uid (pos 0) ≡ false
shared_uid-nonzero none bu uid h = cc
shared_uid-nonzero (some a) none uid h = cc
shared_uid-nonzero (some a) (some b) uid h =
    elim (Bool-cases (not (eqb_ℤ a b) || eqb_ℤ a (pos 0))) [
      | inl y ↦ absurd (none-ne-some _ (rw y at h))
      | inr n ↦
          let e : a ≡ uid = some-injective _ _ (rw n at h) in
          ap (λ u. eqb_ℤ u (pos 0)) (sym e) ∙ or_right (not (eqb_ℤ a b)) (eqb_ℤ a (pos 0)) n
    ]

-- Setup and build both run as this user, who is not root.
abbrev pub SharedUid : AppSpec → ℤ → Type 0
SharedUid spec uid =
    (spec.pipeline.phases.setup.phase.run_as_user ≡ some uid)
    × (spec.pipeline.phases.build.phase.run_as_user ≡ some uid)
    × (uid ≢ pos 0)

-- The container runs as this user, who is not root, and without capabilities.
abbrev pub RunsAs : ℤ → SecurityContext → Type 0
RunsAs uid sc = (sc.run_as_user ≡ some uid) × (sc.run_as_non_root ≡ true) × (sc.add ≡ [])

-- Releases are pruned by the platform's user, a cache by the user that wrote it, and as root only where
-- there is no such user. Each drops ALL and forbids escalation.
abbrev pub IsLeast : AppSpec → String → SecurityContext → Type 0
IsLeast spec mode sc =
    (mode ≡ "releases" → RunsAs (pos 65532) sc)
    × (mode ≢ "releases" → (uid : ℤ) → SharedUid spec uid → RunsAs uid sc)
    × (mode ≢ "releases" → ((uid : ℤ) → ¬ SharedUid spec uid) → sc.run_as_user ≡ some (pos 0))
    × (sc.drop ≡ "ALL" ∷ [])
    × (sc.allow_privilege_escalation ≡ false)

SharedUid-shared_uid :
    (su bu : Option ℤ) (uid : ℤ)
    → su ≡ some uid
    → bu ≡ some uid
    → uid ≢ pos 0
    → shared_uid su bu ≡ some uid
SharedUid-shared_uid su bu uid s b n = rw (s, b, eqb_ℤ-self uid, eqb_ℤ-ne uid (pos 0) n) refl

shared_uid-SharedUid :
    (su bu : Option ℤ) (uid : ℤ) → shared_uid su bu ≡ some uid → (su ≡ some uid) × (bu ≡ some uid)
shared_uid-SharedUid none bu uid h = cc h
shared_uid-SharedUid (some a) none uid h = cc h
shared_uid-SharedUid (some a) (some b) uid h =
    elim (Bool-cases (not (eqb_ℤ a b) || eqb_ℤ a (pos 0))) [
      | inl y ↦ absurd (none-ne-some _ (rw y at h))
      | inr n ↦
          let e : a ≡ uid = some-injective _ _ (rw n at h) in
          let same : a ≡ b = eqb_ℤ→eq a b (ground (arith, n)) in (ap some e, ap some (sym same ∙ e))
    ]

cache_writer_uid-SharedUid :
    (spec : AppSpec) (uid : ℤ) → (cache_writer_uid spec ≡ some uid) ↔ SharedUid spec uid
unfolding cache_writer_uid
cache_writer_uid-SharedUid spec uid =
    let su = spec.pipeline.phases.setup.phase.run_as_user in
    let bu = spec.pipeline.phases.build.phase.run_as_user in
    (
      λ h.
          let (s, b) = shared_uid-SharedUid su bu uid h in
          (
            s,
            b,
            λ z.
                cc
                  (ap (λ u. eqb_ℤ u (pos 0)) z, eqb_ℤ-self (pos 0), shared_uid-nonzero su bu uid h),
          ),
      λ (s, b, n). SharedUid-shared_uid su bu uid s b n,
    )

of_writer-IsLeast :
    (spec : AppSpec) (mode : String) (o : Option ℤ)
    → mode ≢ "releases"
    → cache_writer_uid spec ≡ o
    → IsLeast spec mode (of_writer o)
unfolding root_cleanup of_writer
of_writer-IsLeast spec mode none m h = (
  λ r. absurd (m r),
  λ _ uid u. absurd (none-ne-some uid (sym h ∙ (cache_writer_uid-SharedUid spec uid).1 u)),
  λ _ _. refl,
  refl,
  refl,
)
of_writer-IsLeast spec mode (some writer) m h = (
  λ r. absurd (m r),
  λ _ uid u. (sym h ∙ (cache_writer_uid-SharedUid spec uid).1 u, refl, refl),
  λ _ alone. absurd (alone writer ((cache_writer_uid-SharedUid spec writer).0 h)),
  refl,
  refl,
)

-- A cleanup container runs with the least privilege that its work allows. Releases are pruned as the
-- platform's user 65532, and a cache as the user that both setup and build pin, where they pin one
-- and it is not 0; these are unprivileged (`runAsNonRoot`, no added capability). Only a cache without
-- such a user is pruned as root. In each case the container drops ALL capabilities and forbids
-- escalation.
pub cleanup_security_context-IsLeast :
    (spec : AppSpec) (mode : String) → IsLeast spec mode (cleanup_security_context spec mode)
unfolding cleanup_security_context
cleanup_security_context-IsLeast spec mode = elim (str_cases mode mode_releases) [
  | inl e ↦
      rw ((eq_iff mode mode_releases).1 e)
        (λ _. (refl, refl, refl), λ n. absurd (n e), λ n. absurd (n e), refl, refl)
  | inr n ↦
      rw n (of_writer-IsLeast spec mode (cache_writer_uid spec) (str_ne mode mode_releases n) refl)
]
