-- ===== src/Observability/Reporter/Silence.antt =====
-- What the reporter of internal/observability does not send.
use toggle_web_baker.Common.{
  ℕ, ◌+◌, ◌<◌, ◌≤◌, ◌≡◌, refl, ap, Bool, true, false, ◌||◌, Option, none, some, List, [], ◌∷◌, ◌++◌,
  ◌∙◌, All, codes, contains, arith, Bool-cases, inl, inr, ◌⊎◌, length,
}
use toggle_web_baker.Observability.Limiter.{limit_window, join_fingerprint, allow}
use toggle_web_baker.Observability.Limiter.Muting.{allow_key_once_per_window}
use toggle_web_baker.Observability.Reporter.{
  TerminalFailure, GoError, Field, error_field, other_field, last_error, Entry, Event, Reporter,
  drop_error, drop_message, extract_error, capture_terminal_failure, write, send,
}

send_allowed :
    (event : Event) (now : ℕ) (r : Reporter)
    → (allow event.fingerprint now r.limiter).0 ≡ true
    → send event now r ≡ record {
      limiter = (allow event.fingerprint now r.limiter).1;
      captured = event ∷ r.captured;
    }
unfolding send
send_allowed event now r h = rw h refl

send_refused :
    (event : Event) (now : ℕ) (r : Reporter)
    → (allow event.fingerprint now r.limiter).0 ≡ false
    → (send event now r).captured ≡ r.captured
unfolding send
send_refused event now r h = rw h refl

-- A send adds at most one event.
send_grows :
    (event : Event) (now : ℕ) (r : Reporter)
    → length (send event now r).captured ≤ length r.captured + 1
send_grows event now r = elim (Bool-cases (allow event.fingerprint now r.limiter).0) [
  | inl y ↦ rw (send_allowed event now r y) (omega arith)
  | inr n ↦ rw (send_refused event now r n) (omega arith)
]

-- Two sends of one fingerprint within a window add at most one event.
send_twice :
    (e g : Event) (t u : ℕ) (r : Reporter)
    → g.fingerprint ≡ e.fingerprint
    → u < t + limit_window
    → length (send g u (send e t r)).captured ≤ length r.captured + 1
unfolding allow
send_twice e g t u r same h = elim (Bool-cases (allow e.fingerprint t r.limiter).0) [
  | inl y ↦
      rw
        (send_refused g u (send e t r) (
          rw (send_allowed e t r y, same)
            (allow_key_once_per_window (join_fingerprint e.fingerprint) t r.limiter [] u y tt h)))
        (send_grows e t r)
  | inr n ↦ omega (arith, send_grows g u (send e t r), ap length (send_refused e t r n))
]

-- The events that a reporter has captured.
abbrev pub sent : Option Reporter → List Event
sent none = []
sent (some r) = r.captured

-- Two reports of a failure of one app for one reason, within a window, add at most one event,
-- whatever step and message they name.
pub capture_terminal_failure_twice :
    (f g : TerminalFailure) (t u : ℕ) (r : Option Reporter)
    → g.namespace ≡ f.namespace
    → g.app ≡ f.app
    → g.reason ≡ f.reason
    → u < t + limit_window
    → length (sent (capture_terminal_failure g u (capture_terminal_failure f t r)))
      ≤ length (sent r) + 1
unfolding capture_terminal_failure
capture_terminal_failure_twice f g t u none n a s h = omega arith
capture_terminal_failure_twice f g t u (some r) n a s h = send_twice _ _ t u r (cc) h

-- A field that holds no error.
abbrev pub is_plain : Field → Bool
is_plain (error_field (some _)) = false
is_plain (error_field none) = true
is_plain (other_field _ _) = true

last_error-plain :
    (last : Option GoError) (fields : List Field)
    → All (λ f. is_plain f ≡ true) fields
    → last_error last fields ≡ last
last_error-plain last [] h = refl
last_error-plain last (error_field none ∷ fields) h = last_error-plain last fields h.1
last_error-plain last (error_field (some e) ∷ fields) h = cc (h.0)
last_error-plain last (other_field _ _ ∷ fields) h = last_error-plain last fields h.1

last_error-append :
    (last : Option GoError) (xs ys : List Field)
    → last_error last (xs ++ ys) ≡ last_error (last_error last xs) ys
last_error-append last [] ys = refl
last_error-append last (error_field none ∷ xs) ys = last_error-append last xs ys
last_error-append last (error_field (some e) ∷ xs) ys = last_error-append (some e) xs ys
last_error-append last (other_field _ _ ∷ xs) ys = last_error-append last xs ys

extract_error-last :
    (with_fields before : List Field) (e : GoError) (after : List Field)
    → All (λ f. is_plain f ≡ true) after
    → extract_error with_fields (before ++ error_field (some e) ∷ after) ≡ some e
unfolding extract_error
extract_error-last with_fields before e after plain =
    last_error-append (last_error none with_fields) before (error_field (some e) ∷ after)
    ∙ last_error-plain (some e) after plain

write_message :
    (with_fields : List Field) (entry : Entry) (fields : List Field) (now : ℕ) (r : Reporter)
    → drop_message entry.message ≡ true
    → write with_fields entry fields now r ≡ r
write_message with_fields entry fields now r m = unfold write in rw m refl

write_dropped :
    (with_fields : List Field) (entry : Entry) (fields : List Field) (now : ℕ) (r : Reporter)
    → drop_error (extract_error with_fields fields) ≡ true
    → write with_fields entry fields now r ≡ r
write_dropped with_fields entry fields now r e = elim (Bool-cases (drop_message entry.message)) [
  | inl m ↦ write_message with_fields entry fields now r m
  | inr m ↦ unfold write in rw (m, e) refl
]

-- Of an entry whose last error is `e`: where the message speaks of leader election, or where `e` is a
-- conflict or a cancellation, the reporter stays untouched, so that nothing is captured and no
-- fingerprint is muted.
pub write_noise :
    (with_fields : List Field) (entry : Entry) (before : List Field) (e : GoError)
    (after : List Field) (now : ℕ) (r : Reporter)
    → All (λ f. is_plain f ≡ true) after
    → (contains (codes entry.message) (codes "leader election") ≡ true)
      ⊎ (e.is_conflict || e.is_canceled ≡ true)
    → write with_fields entry (before ++ error_field (some e) ∷ after) now r ≡ r
write_noise with_fields entry before e after now r plain (inl m) =
    write_message with_fields entry _ now r (unfold drop_message in m)
write_noise with_fields entry before e after now r plain (inr n) =
    write_dropped with_fields entry _ now r
      (rw (extract_error-last with_fields before e after plain) (unfold drop_error in n))
