-- ===== src/Domain/Trigger.antt =====
-- internal/domain/trigger.go: whether to create a build Job now.
use toggle_web_baker.Common.{String, Bool, if◌then◌else◌, str_eq}

pub data BuildDecision : Type 0 where
  no_build start_build defer_build : BuildDecision

unfoldable pub decide_build : String → String → Bool → BuildDecision
decide_build requested_token last_processed_token build_active =
    if str_eq requested_token last_processed_token
    then no_build
    else if build_active
    then defer_build
    else start_build
