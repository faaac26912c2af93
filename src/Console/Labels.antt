-- ===== src/Console/Labels.antt =====
-- console/internal/view/model.go, step.go and commit.go: the labels and links of the page. `url_host`
-- is the Host of `url.Parse`, where it succeeds, and `lower_text` is `strings.ToLower`.
use toggle_web_baker.Common.{
  ℕ, zero, suc, String, Bool, false, not, ◌&&◌, ◌||◌, Option, none, some, [], ◌∷◌, ◌++◌,
  if◌then◌else◌, str_eq, ◌==◌, any, take, length, Codes, codes, has_prefix, cut,
}
use mathlib.Core.List.{reverse}
use toggle_web_baker.Common.Int.{pos, eqb_ℤ, ltb_ℤ}
use toggle_web_baker.Common.Decimal.{format_int}
use toggle_web_baker.Console.Model.{
  App, Build, Step, Termination, StorageVolume, ScheduledBuilds, WatchCommits,
}
use Prim.Native.String.{◌++◌ as str_append}

abbrev pub drop : ℕ → Codes → Codes
drop zero s = s
drop (suc n) [] = []
drop (suc n) (c ∷ s) = drop n s

-- `strings.TrimSuffix(s, p)`
abbrev pub trim_suffix : Codes → Codes → Codes
trim_suffix p s =
    if has_prefix (reverse s) (reverse p) then reverse (drop (length p) (reverse s)) else s

-- What is linked: an http(s) remote as it is, `git@host:path` as https://host/path.
abbrev pub scp_base : Option (Codes × Codes) → Option Codes
scp_base none = none
scp_base (some ([], path)) = none
scp_base (some (c ∷ host, [])) = none
scp_base (some (c ∷ host, d ∷ path)) =
    some (codes "https://" ++ (c ∷ host) ++ codes "/" ++ (d ∷ path))

unfoldable pub commit_base : Codes → Option Codes
commit_base repo =
    if has_prefix repo (codes "https://") || has_prefix repo (codes "http://")
    then some repo
    else if has_prefix repo (codes "git@")
    then scp_base (cut b':' (drop 4 repo))
    else none

abbrev pub is_blank : ℕ → Bool
is_blank c = c == 32 || c == 9

abbrev pub link_of : Codes → Option Codes → Codes
link_of sha none = []
link_of sha (some base) =
    let trimmed = trim_suffix (codes ".git") (trim_suffix (codes "/") base) in
    if any is_blank trimmed then [] else trimmed ++ codes "/commit/" ++ sha

unfoldable pub commit_url : Codes → Codes → Codes
unfolding commit_base
commit_url repo [] = []
commit_url repo (c ∷ sha) = link_of (c ∷ sha) (commit_base repo)

unfoldable pub short_sha : Codes → Codes
short_sha sha = take 7 sha

unfoldable pub is_oom : Build → Bool
is_oom b = elim b.termination [ none ↦ false | some t ↦ str_eq t.reason "OOMKilled" ]

abbrev pub oom_summary : Termination → String
oom_summary t =
    let step = str_append "OOM Killed — the " (str_append t.container " step exceeded its ") in
    if not (str_eq t.memory_limit "")
    then str_append step (str_append t.memory_limit " memory limit.")
    else str_append step "memory limit."

abbrev pub summary_of : Termination → String
unfolding format_int
summary_of t =
    if str_eq t.reason ""
    then ""
    else if str_eq t.reason "OOMKilled"
    then oom_summary t
    else str_append "Terminated: "
        (str_append t.reason (str_append " (exit " (str_append (format_int t.exit_code) ")")))

unfoldable pub termination_summary : Build → String
termination_summary b = elim b.termination [ none ↦ "" | some t ↦ summary_of t ]

unfoldable pub trigger_label : Build → Codes
unfolding short_sha
trigger_label b =
    if str_eq b.trigger ""
    then codes "—"
    else if not (str_eq b.triggered_by "")
    then codes b.trigger ++ codes " · " ++ codes b.triggered_by
    else if not (str_eq b.commit "")
    then codes b.trigger ++ codes " · " ++ short_sha (codes b.commit)
    else codes b.trigger

abbrev pub volume_label : String → String
volume_label key =
    if str_eq key "output"
    then "Output (current release)"
    else if str_eq key "outputTotal"
    then "Output (all releases)"
    else if str_eq key "cache"
    then "Cache"
    else if str_eq key "dataCache"
    then "Data cache"
    else key

unfoldable pub display_name : StorageVolume → String
unfolding format_int
display_name v =
    if str_eq v.name "outputTotal" && ltb_ℤ (pos 0) v.releases
    then (if eqb_ℤ v.releases (pos 1)
        then "Output (1 release)"
        else str_append "Output (" (str_append (format_int v.releases) " releases)"))
    else volume_label v.name

unfoldable pub scheduled_label : ScheduledBuilds → String
scheduled_label s =
    if not s.enabled
    then "Disabled"
    else if str_eq s.schedule ""
    then "operator default"
    else s.schedule

unfoldable pub watch_label : WatchCommits → String
watch_label w =
    if not w.enabled
    then "Disabled"
    else if str_eq w.interval ""
    then "operator default"
    else str_append "every " w.interval

unfoldable pub host_of_url : (String → Option String) → App → String
host_of_url url_host a = if str_eq a.url "" then "" else (elim (url_host a.url) [
  | none ↦ a.url
  | some host ↦ if str_eq host "" then a.url else host
])

unfoldable pub icon : Step → String
icon s =
    if str_eq s.status "Succeeded"
    then "✓"
    else if str_eq s.status "Running"
    then "●"
    else if str_eq s.status "Failed"
    then "✕"
    else if str_eq s.status "Aborted"
    then "◼"
    else "·"

unfoldable pub css_class : Step → String
css_class s =
    if str_eq s.status "Succeeded"
    then "step-succeeded"
    else if str_eq s.status "Running"
    then "step-running"
    else if str_eq s.status "Failed"
    then "step-failed"
    else if str_eq s.status "Aborted"
    then "step-aborted"
    else "step-pending"

unfoldable pub aria_label : (String → String) → Step → String
aria_label lower_text s = str_append s.name (str_append ": " (lower_text s.status))
