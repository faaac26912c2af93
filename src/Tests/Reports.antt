-- ===== src/Tests/Reports.antt =====
-- internal/observability at concrete inputs.
use toggle_web_baker.Common.{
  ℕ, ◌≡◌, refl, inr, String, true, false, none, some, List, [], ◌∷◌, ◌++◌, All, codes, Codes, arith,
}
use toggle_web_baker.Observability.Limiter.{new_fingerprint_limiter, prune, allow_key}
use toggle_web_baker.Observability.Limiter.Keys.{NoNul}
use toggle_web_baker.Observability.Limiter.Muting.{after, allow_key_once_per_window}
use toggle_web_baker.Observability.Limiter.Pruning.{answers, answers_unpruned, answers-unpruned}
use toggle_web_baker.Observability.Reporter.{
  TerminalFailure, GoError, error_field, other_field, Reporter, write,
}
use toggle_web_baker.Observability.Reporter.Silence.{write_noise}

abbrev key_a : Codes
key_a = b'a' ∷ []

allow_key_once_per_window_example :
    (allow_key key_a 90
      (after ((b'b' ∷ [], 50) ∷ []) (allow_key key_a 10 new_fingerprint_limiter).1)).0
    ≡ false
unfolding allow_key prune new_fingerprint_limiter
allow_key_once_per_window_example =
    allow_key_once_per_window key_a 10 new_fingerprint_limiter ((b'b' ∷ [], 50) ∷ []) 90 refl
      (omega arith, tt) (omega arith)

abbrev two_calls : List (Codes × ℕ)
two_calls = (key_a, 10) ∷ (key_a, 20) ∷ []

answers-unpruned_example :
    answers two_calls new_fingerprint_limiter ≡ answers_unpruned two_calls (λ k. none)
answers-unpruned_example = answers-unpruned two_calls (omega arith, (omega arith, tt))

two_keys-NoNul : All NoNul (key_a ∷ key_a ∷ [])
two_keys-NoNul = ((λ h. omega (arith, h), tt), ((λ h. omega (arith, h), tt), tt))

abbrev failure_of : String → String → TerminalFailure
failure_of step message = record {
  app = "site";
  namespace = "web";
  step = step;
  reason = "BuildFailed";
  message = message;
}

abbrev new_reporter : Reporter
new_reporter = record { limiter = new_fingerprint_limiter; captured = [] }

abbrev conflict : GoError
conflict = record { text = codes "conflict"; is_conflict = true; is_canceled = false }

write_noise_example :
    write []
      (record { logger_name = "manager"; message = "Reconciler error" })
      ([] ++ error_field (some conflict) ∷ other_field "app" "site" ∷ [])
      10
      new_reporter
    ≡ new_reporter
write_noise_example =
    write_noise [] (record { logger_name = "manager"; message = "Reconciler error" }) [] conflict
      (other_field "app" "site" ∷ []) 10 new_reporter (refl, tt) (inr refl)
