-- ===== src/Console/Timing.antt =====
-- console/internal/view/model.go and schedule.go: the durations of steps and builds, and the next
-- scheduled build. `parse_time` is `time.Parse` of an RFC 3339 text, in nanoseconds, `show` is
-- `Round(time.Second).String()` of a duration, and `next_fire cron` is the next time of a cron
-- expression after the present, as RFC 3339 in UTC, where it can be parsed.
use toggle_web_baker.Common.{
  ℕ, String, Bool, not, ◌||◌, Option, none, some, if◌then◌else◌, str_eq, Codes, codes,
}
use mathlib.Core.List.{reverse}
use toggle_web_baker.Common.{has_prefix}
use toggle_web_baker.Common.Int.{ℤ, pos, negsuc, ◌-ℤ◌}
use toggle_web_baker.Console.Model.{Step, Build, ScheduledBuilds}
use toggle_web_baker.Console.Labels.{trim_suffix}

abbrev pub has_suffix : Codes → Codes → Bool
has_suffix s p = has_prefix (reverse s) (reverse p)

unfoldable pub compact_duration : (ℕ → Codes) → ℕ → Codes
compact_duration show d =
    let out = show d in
    let minutes = if has_suffix out (codes "m0s") then trim_suffix (codes "0s") out else out in
    if has_suffix minutes (codes "h0m") then trim_suffix (codes "0m") minutes else minutes

-- An empty text where the span is negative.
abbrev pub shown_span : (ℕ → Codes) → ℤ → Codes
unfolding compact_duration
shown_span show (pos d) = compact_duration show d
shown_span show (negsuc d) = codes ""

module _ (parse_time : String → Option ℤ) (show : ℕ → Codes) where
  -- The end of a step: its own, or the present for one that runs.
  unfoldable pub step_end : ℤ → Step → Option ℤ
  step_end now s =
      if not (str_eq s.finished_at "")
      then parse_time s.finished_at
      else if str_eq s.status "Running"
      then some now
      else none

  abbrev pub span : Option ℤ → Option ℤ → Codes
  unfolding ◌-ℤ◌
  span none _ = codes ""
  span (some start) none = codes ""
  span (some start) (some end) = shown_span show (end -ℤ start)

  unfoldable pub step_duration : ℤ → Step → Codes
  unfolding step_end
  step_duration now s = span (parse_time s.started_at) (step_end now s)

  unfoldable pub build_duration : Build → Codes
  build_duration b = span (parse_time b.start_time) (parse_time b.completion_time)

abbrev pub or_blank : Option String → String
or_blank none = ""
or_blank (some t) = t

unfoldable pub next_scheduled : (String → Option String) → ScheduledBuilds → String
next_scheduled next_fire sb =
    if not sb.enabled || str_eq sb.schedule "" then "" else or_blank (next_fire sb.schedule)
