-- ===== src/Controller/Config/Soundness.antt =====
-- internal/controller/config.go: what holds of a configuration that was loaded.
use toggle_web_baker.Common.{
  String, Bool, true, false, ◌≡◌, refl, sym, subst, List, [], ◌∷◌, if◌then◌else◌, Result, ok, ◌>>◌,
  >>=-eq-ok, All, arith,
}
use toggle_web_baker.Common.Int.{ℤ, pos, ltb_ℤ, leb_ℤ, ◌≤ℤ◌}
use toggle_web_baker.Controller.Config.File.{
  PhaseResourceDefaults, OperatorConfig, FileConfig, ConfigError, out_of_range,
}
use toggle_web_baker.Controller.Config.{
  reject, default_int, default_zero, defaults, one_hour, outside, check_numbers, config_of,
}

pub reject-ok : (b : Bool) (e : ConfigError) → reject b e ≡ ok tt → b ≡ false
reject-ok true e h = cc
reject-ok false e h = refl

-- A check that passes, and what comes after it.
pub then-ok :
    {E : Type 0} (check rest : Result E (Unit {0}))
    → (check >> rest) ≡ ok tt
    → (check ≡ ok tt) × (rest ≡ ok tt)
then-ok check rest h =
    let (u, first_ok, rest_ok) = >>=-eq-ok check (λ _. rest) h in (first_ok, rest_ok)

abbrev pub InRange : ℤ → ℤ → ℤ → Type 0
InRange low high n = (low ≤ℤ n) × (n ≤ℤ high)

inside : (low high n : ℤ) → outside low high n ≡ false → InRange low high n
inside low high n h = ground arith

default_zero-positive : (v d : ℤ) → pos 1 ≤ℤ v → default_zero v d ≡ v
default_zero-positive v d h = ground arith

zero_not_above : (n : ℤ) → leb_ℤ n (pos 0) ≡ false → pos 1 ≤ℤ n
zero_not_above n h = ground arith

pub at_least : (low n : ℤ) → ltb_ℤ n low ≡ false → low ≤ℤ n
at_least low n h = ground arith

-- The numbers of a file that passes, in the order of the checks.
pub NumbersSound : FileConfig → Type 0
NumbersSound fc =
    (pos 1 ≤ℤ fc.active_deadline_seconds)
    × (pos 1 ≤ℤ default_int fc.clone_retries (pos 3))
    × (pos 0 ≤ℤ default_int fc.clone_retry_base_delay (pos 2))
    × InRange (pos 1) (pos 50) (default_int fc.history_keep_recent (pos 5))
    × InRange (pos 1) (pos 50) (default_int fc.history_keep_failed (pos 10))
    × (pos 1 ≤ℤ default_int fc.scheduled_alert_threshold (pos 3))

-- A run of rejections that is passed.
reject_all :
    List (Bool × ConfigError) → Result ConfigError (Unit {0}) → Result ConfigError (Unit {0})
reject_all [] rest = rest
reject_all ((b, e) ∷ checks) rest = reject b e >> reject_all checks rest

reject_all-ok :
    (checks : List (Bool × ConfigError)) (rest : Result ConfigError (Unit {0}))
    → reject_all checks rest ≡ ok tt
    → All (λ c. c.0 ≡ false) checks × (rest ≡ ok tt)
unfolding reject_all
reject_all-ok [] rest h = (tt, h)
reject_all-ok ((true, e) ∷ checks) rest h = cc
reject_all-ok ((false, e) ∷ checks) rest h =
    let (passed, final) = reject_all-ok checks rest h in ((refl, passed), final)

pub check_numbers-NumbersSound : (fc : FileConfig) → check_numbers fc ≡ ok tt → NumbersSound fc
unfolding check_numbers NumbersSound reject_all
check_numbers-NumbersSound fc h =
    let deadline = fc.active_deadline_seconds in
    let retries = default_int fc.clone_retries (pos 3) in
    let delay = default_int fc.clone_retry_base_delay (pos 2) in
    let recent = default_int fc.history_keep_recent (pos 5) in
    let failed = default_int fc.history_keep_failed (pos 10) in
    let threshold = default_int fc.scheduled_alert_threshold (pos 3) in
    let checks : List (Bool × ConfigError) =
      (leb_ℤ deadline (pos 0), out_of_range "activeDeadlineSeconds" deadline)
      ∷ (ltb_ℤ retries (pos 1), out_of_range "cloneRetries" retries)
      ∷ (ltb_ℤ delay (pos 0), out_of_range "cloneRetryBaseDelay" delay)
      ∷ (outside (pos 1) (pos 50) recent, out_of_range "historyKeepRecent" recent)
      ∷ (outside (pos 1) (pos 50) failed, out_of_range "historyKeepFailed" failed)
      ∷ [] in
    let threshold_error = out_of_range "scheduledAlertThreshold" threshold in
    let ((a, (b, (c, (d, (e, _))))), last) =
      reject_all-ok checks (reject (ltb_ℤ threshold (pos 1)) threshold_error) h in
    (
      zero_not_above deadline a,
      at_least (pos 1) retries b,
      at_least (pos 0) delay c,
      inside (pos 1) (pos 50) recent d,
      inside (pos 1) (pos 50) failed e,
      at_least (pos 1) threshold (reject-ok (ltb_ℤ threshold (pos 1)) threshold_error last),
    )

-- The numbers of a configuration.
abbrev pub InBounds : {Q : Type 0} → OperatorConfig Q → Type 0
InBounds c =
    (pos 1 ≤ℤ c.measure_interval)
    × (pos 1 ≤ℤ c.active_deadline_seconds)
    × (pos 1 ≤ℤ c.clone_retries)
    × (pos 0 ≤ℤ c.clone_retry_base_delay)
    × InRange (pos 1) (pos 50) c.history_keep_recent
    × InRange (pos 1) (pos 50) c.history_keep_failed
    × (pos 1 ≤ℤ c.scheduled_alert_threshold)

interval_positive : (n : ℤ) → pos 1 ≤ℤ (if leb_ℤ n (pos 0) then one_hour else n)
interval_positive n = ground arith

pub defaults-InBounds :
    {Q : Type 0} (fc : FileConfig) (interval : ℤ) (triggers : String × String)
    (resources : PhaseResourceDefaults Q)
    → NumbersSound fc
    → InBounds (defaults (config_of fc interval triggers resources))
unfolding defaults config_of NumbersSound
defaults-InBounds fc interval triggers resources
      (deadline, retries, delay, (r0, r1), (f0, f1), threshold) =
    (
      interval_positive interval,
      deadline,
      subst (λ n. pos 1 ≤ℤ n) (sym (default_zero-positive _ (pos 3) retries)) retries,
      delay,
      subst (InRange (pos 1) (pos 50)) (sym (default_zero-positive _ (pos 5) r0)) (r0, r1),
      subst (InRange (pos 1) (pos 50)) (sym (default_zero-positive _ (pos 10) f0)) (f0, f1),
      subst (λ n. pos 1 ≤ℤ n) (sym (default_zero-positive _ (pos 3) threshold)) threshold,
    )
