-- ===== src/Tests/Console.antt =====
-- The console's view of concrete Apps, and the theorems about it at them.
use toggle_web_baker.Common.{
  ℕ, String, false, ◌≡◌, refl, ltb→lt, leb→le, ◌^◌, Option, none, [], ◌∷◌,
}
use toggle_web_baker.Common.Int.{ℤ, pos, negsuc}
use toggle_web_baker.Common.Decimal.{format_nat}
use toggle_web_baker.Api.Json.{encode_status}
use toggle_web_baker.Controller.Conditions.{refresh_phase, fail_status, find_condition}
use toggle_web_baker.Console.Value.{as_int, as_string, text, integer}
use toggle_web_baker.Console.Value.RoundTrip.{as_int-as_string}
use toggle_web_baker.Console.Human.{unit_index}
use toggle_web_baker.Console.Human.Bounds.{Fits, unit_index-Fits}
use toggle_web_baker.Console.Model as Model
use toggle_web_baker.Console.Totals.{aggregate_storage, storage_totals}
use toggle_web_baker.Console.Totals.Sums.{aggregate_storage-sum, sum_over}
use toggle_web_baker.Console.View.{Object, from_spec}
use toggle_web_baker.Console.Health.{health_class}
use toggle_web_baker.Console.Contract.Health.{
  view, health_of, health_class-fail_status, health_class-refresh_phase,
}
use toggle_web_baker.Tests.Samples.{site, app_status}

abbrev one_decimal : ℕ → ℕ → String
one_decimal n unit = "1.0"

abbrev percent : ℤ → ℤ → ℤ
percent used cap = pos 50

abbrev next_fire : String → Option String
next_fire cron = none

abbrev stored : Object
stored = record {
  namespace = "web";
  name = "site";
  annotations = [];
  content = ("status", encode_status format_nat app_status) ∷ [];
}

abbrev bare : Model.App
bare = from_spec one_decimal percent next_fire stored []

health_class-fail_status_example :
    health_class (
      view format_nat one_decimal percent none bare
        (fail_status 7 site "BuildFailed" "no such file").status)
    ≡ "degraded"
health_class-fail_status_example =
    health_class-fail_status format_nat one_decimal percent none bare 7 site "BuildFailed"
      "no such file"

health_class-refresh_phase_example :
    health_class (view format_nat one_decimal percent none bare (refresh_phase 7 site).status)
    ≡ health_of (refresh_phase 7 site).status.phase
unfolding find_condition
health_class-refresh_phase_example =
    health_class-refresh_phase format_nat one_decimal percent none bare 7 site refl

unit_index-Fits_example : Fits (unit_index 3 0 1048576) 1048576
unit_index-Fits_example = unit_index-Fits 1048576 (leb→le 1024 1048576 refl)

as_int-as_string_example : as_int (text (as_string (integer (negsuc 41)))) ≡ negsuc 41
as_int-as_string_example = as_int-as_string (negsuc 41) (ltb→lt 41 (2 ^ 63) refl)

abbrev small_app : Model.App
small_app = record bare {
  storage = record {
    measured_at = "";
    threshold_state = "OK";
    release_count = pos 2;
    volumes = volume "cache" 4 ∷ volume "output" 3 ∷ volume "outputTotal" 6 ∷ [];
  };
}
  where
    volume : String → ℕ → Model.StorageVolume
    volume name n = record {
      name = name;
      bytes = pos n;
      human = "";
      delta = "";
      cap = pos 0;
      cap_human = "";
      bar_pct = pos 0;
      over = false;
      has_bar = false;
      releases = pos 0;
    }

aggregate_storage-sum_example :
    (aggregate_storage (small_app ∷ bare ∷ [])).grand
    ≡ sum_over (λ a. (storage_totals a).grand) (small_app ∷ bare ∷ [])
aggregate_storage-sum_example = aggregate_storage-sum (small_app ∷ bare ∷ [])
