-- ===== src/Lib.antt =====
-- Verification of Toggle Web Baker, which builds static web apps in Kubernetes Jobs and serves their
-- releases: its operator, and the view of its console.
--
-- An App resource asks for a site. The operator (internal/controller) reconciles it: it checks the spec,
-- starts one build Job at a time, follows the build pod, records the result with its history, prunes
-- caches and old releases on demand, measures the volumes, and derives a phase and conditions. The pure
-- decisions are in internal/domain, the reports of failures to Sentry in internal/observability, and the
-- resource itself in api/v1alpha1. The console (console/internal/view) reads the stored status back and
-- shows it; the two share no types, only the JSON of the resource.
--
-- The files and the code that they model:
--   * Domain/Trigger, Domain/Cleanup, Domain/Registry, Domain/Storage, Domain/RepoHost,
--     Domain/WatchSchedule, Domain/NodeImage, Domain/BuildSpec: the file of internal/domain of that name
--     (trigger.go, cleanup.go, registry.go and so on), with one function for each function of the source,
--     in this library's spelling (`DecideBuild` is `decide_build`).
--   * Observability/Limiter: internal/observability/ratelimit.go. Observability/Reporter: reporter.go,
--     zapcore.go and filters.go beside it.
--   * Api/Status, Api/Spec, Api/App: api/v1alpha1/app_types.go, as far as the modelled operations read and
--     write it. Api/Json: the JSON object of a status, by the json tags of that file. Cluster: the
--     Kubernetes objects that they use, with the fields that they use.
--   * Controller/Messages, Controller/Steps, Controller/History: internal/controller/buildsteps.go, with
--     the memory limit of termination.go and the parsed number of measure.go.
--   * Controller/Conditions: the phase and the conditions of internal/controller/app_controller.go.
--     Controller/Inputs: what it derives from a spec, such as the build spec and the limits.
--   * Controller/Faults: platformfault.go and termination.go.
--   * Controller/Sizes, Controller/Measure: measure.go, the du Jobs with their debounce and the harvest
--     of their results. Controller/Pods: the pods of a Job and its container that terminated last.
--   * Controller/Exec: how a reconcile runs against the API server. Controller/Build: `buildActive`,
--     `startBuild` and the build decision of `Reconcile` in app_controller.go.
--   * Controller/Lifecycle: `observeBuild`, `findBuildPod` and `applyCopierTermination` of
--     app_controller.go: the writings into the App, and in Observe the calls around them.
--   * Controller/Reconcile: `Reconcile` of app_controller.go from its step 1 on, with `fail` and
--     `seedRebuild`: how the parts follow one another. Controller/Admission: the checks that it makes, with
--     `validateWatchCommits` of buildsteps.go and
--     `validateRepoAuthSecret` of gitcred.go.
--   * Controller/Cleanup: cleanup.go: Job (the helper Job and its privileges), Actions (the requests and
--     their records), Observe (the harvest of finished Jobs) and Start (the pass that starts new ones).
--   * Controller/Credential: the choice of the git credential and its mount, of gitcred.go.
--   * Controller/Config: config.go: File (the records), the defaults and the checks, and Load.
--   * Console: console/internal/view: Value (coerce.go), Human (humanize.go and storagebar.go), Model and
--     From (the types and the readers of model.go), Volumes, Totals, Health, Labels (with commit.go and
--     step.go), Timing (with schedule.go) and View (`FromUnstructured`). Console/Contract is an
--     independent description of what each recorded field is shown as.
--   * Tests: concrete inputs, and the theorems at them.
--   * Common: lists, results, texts, maps, orders, decimals and signed integers that all of them share.
-- The modules below these (Registry/Boundary, Cleanup/Serial and so on) hold the proofs.
--
-- Conventions. Go maps are association lists, an `int64` is a signed integer without bound (what is parsed
-- is tested against 2^63; sums and differences of byte counts are assumed to fit), a time is a number of
-- nanoseconds with 0 for Go's zero time, and the clock is an argument. A pointer that may be nil is an
-- Option, a string enumeration a data type whose `unset` is the empty string, and `(value, error)` a Result.
-- Texts that are walked are lists of code points, taken as ASCII, where the bytes, `strings.ToLower`,
-- `strings.EqualFold` and `strings.TrimSpace` are those of the source. A step of a reconcile takes the App,
-- the cluster and the state of the run (the Jobs created so far, the failures reported, the builds
-- counted), and returns a value or an error with the state that it leaves; the calls of the API client
-- are the fields of an argument, whatever they answer. In the console an untyped value of the decoded JSON
-- is a data type with one constructor for each kind.
--
-- Arguments stand for code that is not the repository's: `url.Parse`, `time.ParseDuration`, `time.Parse`
-- and the printing of times, `json.Marshal` with SHA-256, `json.Unmarshal`, `strconv.Itoa`, float64
-- arithmetic, the cron parser, `net.ParseCIDR`, `resource.ParseQuantity` and the API client. Some parts of
-- the repository that are not modelled are arguments too: `BuildJob` of internal/controller/buildpod.go,
-- which makes the Job of a build, `summarizeCleanup` of cleanup.go and the texts of the errors, which make
-- messages, and for `Reconcile` the children (`ensureInfra`, `ensureServing`) and the synchronisation of
-- the git credential, each of which reads the App and reads or writes the cluster; `ensureServing` may
-- write the App as well.
--
-- Every loop is recursion on a list or on a text. Two functions have fuel: `digits` of
-- Domain/WatchSchedule and `format_from` of Common/Decimal, which print a number. Each gets the number
-- plus one, and a number has fewer digits.
--
-- Not modelled: the start of `Reconcile` (loading the App, its deletion and finalizer), the build pod, the
-- copies of the git credential, the child objects, the metrics, the console's server and clients with
-- `BuildMetrics`, the reading and decoding of the configuration file with `ParseNodeImages`, the phase
-- wrapper (images/shim) and the entry points. Locks are not modelled: a call is one step. Logging is left
-- out.
pub mod Common
pub mod Domain
pub mod Observability
pub mod Api
pub mod Cluster
pub mod Controller
pub mod Console
pub mod Tests
