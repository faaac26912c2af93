-- ===== src/Console/Health.antt =====
-- console/internal/view/model.go: what the console says of an App at a glance.
use toggle_web_baker.Common.{
  ℕ, String, Bool, true, false, not, ◌&&◌, ◌||◌, Option, none, some, if◌then◌else◌, str_eq, first,
}
use toggle_web_baker.Console.Model.{App, Build, Condition, CleanupAction}

unfoldable pub is_true : Condition → Bool
is_true c = str_eq c.status "True"

abbrev same_bool : Bool → Bool → Bool
same_bool true b = b
same_bool false b = not b

-- The colour of a condition: Degraded is healthy when it is false.
unfoldable pub condition_class : Condition → String
condition_class c =
    let healthy_when_true = not (str_eq c.type_ "Degraded") in
    if str_eq c.status "True" || str_eq c.status "False"
    then (if same_bool (str_eq c.status "True") healthy_when_true then "true" else "false")
    else "unknown"

unfoldable pub condition : App → String → Option Condition
condition a t = first (λ c. str_eq c.type_ t) a.conditions

unfoldable pub build_active : App → Bool
build_active a =
    str_eq a.phase "Building" || str_eq a.build.phase "Running" || str_eq a.build.phase "Pending"

unfoldable pub active : CleanupAction → Bool
active c = str_eq c.phase "Pending" || str_eq c.phase "Running"

unfoldable pub cleanup_active : App → Bool
unfolding active
cleanup_active a = active a.cleanup.cache || active a.cleanup.releases

unfoldable pub cleanup_busy : App → Bool
unfolding build_active cleanup_active
cleanup_busy a = build_active a || cleanup_active a

unfoldable pub holds : Option Condition → Bool
unfolding is_true
holds none = false
holds (some c) = is_true c

unfoldable pub ready : App → Bool
unfolding condition holds
ready a = holds (condition a "Ready")

unfoldable pub degraded : App → Bool
unfolding condition holds
degraded a = holds (condition a "Degraded")

unfoldable pub build_failed : App → Bool
unfolding condition
build_failed a = elim (condition a "BuildSucceeded") [
  | none ↦ false
  | some c ↦ str_eq c.status "False"
]

unfoldable pub health_class : App → String
unfolding ready degraded
health_class a =
    if degraded a && ready a
    then "degraded-serving"
    else if degraded a
    then "degraded"
    else if ready a
    then "ready"
    else if str_eq a.phase "Building"
    then "building"
    else "pending"

unfoldable pub health_label : App → String
unfolding ready degraded
health_label a =
    if degraded a && ready a
    then "Serving last-good (latest build failed)"
    else if degraded a
    then "Degraded"
    else if ready a
    then "Ready"
    else if str_eq a.phase "Building"
    then "Building"
    else if not (str_eq a.phase "")
    then a.phase
    else "Pending"

unfoldable pub health_short_label : App → String
unfolding health_class health_label
health_short_label a =
    if str_eq (health_class a) "degraded-serving" then "Serving last-good" else health_label a

-- The order of the list's rows.
unfoldable pub health_rank : App → ℕ
unfolding health_class
health_rank a =
    let c = health_class a in
    if str_eq c "degraded"
    then 0
    else if str_eq c "degraded-serving"
    then 1
    else if str_eq c "building"
    then 2
    else if str_eq c "pending"
    then 3
    else 4

unfoldable pub storage_badge_label : App → String
storage_badge_label a =
    if str_eq a.storage.threshold_state "Alert"
    then "STORAGE ALERT"
    else if str_eq a.storage.threshold_state "Critical"
    then "STORAGE CRITICAL"
    else ""

unfoldable pub storage_badge_class : App → String
storage_badge_class a =
    if str_eq a.storage.threshold_state "Alert"
    then "b-stale"
    else if str_eq a.storage.threshold_state "Critical"
    then "b-degraded"
    else ""

unfoldable pub show_flow : App → Bool
unfolding build_active
show_flow a = build_active a || str_eq a.build.result "Failed"

abbrev pub job_name_or_empty : Option Build → String
job_name_or_empty none = ""
job_name_or_empty (some b) = b.job_name

unfoldable pub serving_job_name : App → String
unfolding ready
serving_job_name a =
    if ready a
    then job_name_or_empty (first (λ b. str_eq b.result "Succeeded") a.build_history)
    else ""
