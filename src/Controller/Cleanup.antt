-- ===== src/Controller/Cleanup.antt =====
-- internal/controller/cleanup.go: on-demand cleanup of the cache and of old releases.
pub mod Job
pub mod Actions
pub mod Observe
pub mod Start
pub mod Spending
pub mod Serial
pub mod Held
pub mod Harvest
