-- ===== src/Domain/WatchSchedule.antt =====
-- internal/domain/watchschedule.go: a poll interval as a cron schedule. `time.ParseDuration` is the
-- argument `parse_duration`: nanoseconds, or `none` where the text is no duration.
pub mod Grid
use toggle_web_baker.Common.{
  ℕ, zero, suc, ◌+◌, ◌*◌, ◌/◌, ◌%◌, ◌^◌, String, Bool, true, false, not, Option, none, some, List,
  [], ◌∷◌, ◌++◌, if◌then◌else◌, ltb, leb, ◌==◌, Codes, codes, Result, ok, err,
}
use toggle_web_baker.Common.Int.{ℤ, pos, negsuc, pos_part, ltb_ℤ}

-- The errors of `WatchCron`, each for a `fmt.Errorf` of the source.
pub data WatchError : Type 0 where
  not_a_duration below_one_minute not_whole_minutes not_whole_hours above_23_hours : WatchError

abbrev pub minute : ℕ
minute = 60 * 10 ^ 9

abbrev pub hour : ℕ
hour = 60 * minute

-- `%d` of a number: its decimal digits, put before `out`.
unfoldable pub digits : ℕ → ℕ → Codes → Codes
digits zero n out = out
digits (suc fuel) n out =
    let more = digits fuel (n / 10) ((48 + n % 10) ∷ out) in
    if ltb n 10 then (48 + n) ∷ out else more

unfoldable pub decimal : ℕ → Codes
unfolding digits
decimal n = digits (suc n) n []

-- `*/%d * * * *` and `0 */%d * * *`
unfoldable pub every_minutes : ℕ → Codes
unfolding decimal
every_minutes m = codes "*/" ++ decimal m ++ codes " * * * *"

unfoldable pub every_hours : ℕ → Codes
unfolding decimal
every_hours h = codes "0 */" ++ decimal h ++ codes " * * *"

-- The tests on a duration that is at least a minute.
unfoldable pub cron_of : ℕ → Result WatchError Codes
cron_of d =
    let minutes = d / minute in
    let hours = d / hour in
    if not (d % minute == 0)
    then err not_whole_minutes
    else if leb minutes 59
    then ok (every_minutes minutes)
    else if not (d % hour == 0)
    then err not_whole_hours
    else if ltb 23 hours
    then err above_23_hours
    else ok (every_hours hours)

abbrev pub cron_of_parsed : Option ℤ → Result WatchError Codes
cron_of_parsed none = err not_a_duration
cron_of_parsed (some d) =
    if ltb_ℤ d (pos minute) then err below_one_minute else cron_of (pos_part d)

unfoldable pub watch_cron : (String → Option ℤ) → String → Result WatchError Codes
unfolding cron_of
watch_cron parse_duration interval = cron_of_parsed (parse_duration interval)
