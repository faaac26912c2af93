-- ===== src/Observability/Reporter.antt =====
-- internal/observability/reporter.go, zapcore.go and filters.go: what is sent to Sentry. A nil
-- `*Reporter` is `none`. The hub is the list of events that it was given, newest first. Errors are a
-- type with Go's `Error()` text and the two tests of the libraries on them.
pub mod Silence
use toggle_web_baker.Common.{
  ℕ, String, Bool, true, false, ◌||◌, Option, none, some, List, [], ◌∷◌, ◌++◌, if◌then◌else◌, leb,
  length, take, Codes, codes, contains, Map,
}
use toggle_web_baker.Observability.Limiter.{FingerprintLimiter, allow}

pub record TerminalFailure : Type 0 where
  pub app : String
  pub namespace : String
  pub step : String
  pub reason : String
  pub message : String

-- zap's error interface: its text, and what `apierrors.IsConflict` and
-- `errors.Is(err, context.Canceled)` answer of it.
pub record GoError : Type 0 where
  pub text : Codes
  pub is_conflict : Bool
  pub is_canceled : Bool

-- A field of a log entry: one of `ErrorType`, with the error that its interface holds, or another.
pub data Field : Type 0 where
  error_field : Option GoError → Field
  other_field : String → String → Field

pub record Event : Type 0 where
  pub message : String
  pub fingerprint : List Codes
  pub tags : Map String
  pub exception : Option GoError
  pub fields : List Field

pub record Reporter : Type 0 where
  pub limiter : FingerprintLimiter
  pub captured : List Event

abbrev max_fingerprint_err_len : ℕ
max_fingerprint_err_len = 200

unfoldable pub truncate : Codes → ℕ → Codes
truncate s n = if leb (length s) n then s else take n s

unfoldable pub drop_error : Option GoError → Bool
drop_error none = false
drop_error (some e) = e.is_conflict || e.is_canceled

unfoldable pub drop_message : String → Bool
drop_message msg = contains (codes msg) (codes "leader election")

-- The last error among the fields.
abbrev pub last_error : Option GoError → List Field → Option GoError
last_error last [] = last
last_error last (error_field (some e) ∷ fields) = last_error (some e) fields
last_error last (error_field none ∷ fields) = last_error last fields
last_error last (other_field _ _ ∷ fields) = last_error last fields

unfoldable pub extract_error : List Field → List Field → Option GoError
extract_error with_fields fields = last_error (last_error none with_fields) fields

-- The event goes to the hub where the limiter lets its fingerprint through.
unfoldable pub send : Event → ℕ → Reporter → Reporter
send event now r =
    let (allowed, limiter) = allow event.fingerprint now r.limiter in
    if allowed
    then record { limiter = limiter; captured = event ∷ r.captured }
    else record { limiter = limiter; captured = r.captured }

unfoldable pub capture_terminal_failure : TerminalFailure → ℕ → Option Reporter → Option Reporter
capture_terminal_failure f now none = none
capture_terminal_failure f now (some r) = some (
    send
      (record {
        message = f.message;
        fingerprint = codes f.namespace ∷ codes f.app ∷ codes f.reason ∷ [];
        tags =
            ("app", f.app)
            ∷ ("namespace", f.namespace)
            ∷ ("step", f.step)
            ∷ ("reason", f.reason)
            ∷ [];
        exception = none;
        fields = [];
      })
      now r)

abbrev pub fingerprint_of : String → String → Option GoError → List Codes
fingerprint_of logger_name message none = codes logger_name ∷ codes message ∷ []
fingerprint_of logger_name message (some e) =
    codes logger_name ∷ codes message ∷ truncate e.text max_fingerprint_err_len ∷ []

-- An entry of the log: the logger's name and the message.
pub record Entry : Type 0 where
  pub logger_name : String
  pub message : String

-- `(c *sentryCore) Write(entry, fields)`, of a core that has `with_fields`.
unfoldable pub write : List Field → Entry → List Field → ℕ → Reporter → Reporter
unfolding drop_message extract_error drop_error
write with_fields entry fields now r =
    let e = extract_error with_fields fields in
    if drop_message entry.message
    then r
    else if drop_error e
    then r
    else send
        (record {
          message = entry.message;
          fingerprint = fingerprint_of entry.logger_name entry.message e;
          tags = [];
          exception = e;
          fields = with_fields ++ fields;
        })
        now r
