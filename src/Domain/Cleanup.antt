-- ===== src/Domain/Cleanup.antt =====
-- internal/domain/cleanup.go: whether to start an on-demand cleanup Job now.
use toggle_web_baker.Common.{String, Bool, ◌||◌, if◌then◌else◌, str_eq}

pub data CleanupDecision : Type 0 where
  no_cleanup start_cleanup wait_cleanup : CleanupDecision

unfoldable pub decide_cleanup : String → String → Bool → Bool → CleanupDecision
decide_cleanup requested_token processed_token build_active cleanup_active =
    if str_eq requested_token "" || str_eq requested_token processed_token
    then no_cleanup
    else if build_active || cleanup_active
    then wait_cleanup
    else start_cleanup
