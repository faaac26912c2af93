-- ===== src/Domain.antt =====
-- internal/domain: the operator's decision logic, with no Kubernetes types.
pub mod Trigger
pub mod Cleanup
pub mod Registry
pub mod Storage
pub mod RepoHost
pub mod WatchSchedule
pub mod NodeImage
pub mod BuildSpec
