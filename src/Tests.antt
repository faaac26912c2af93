-- ===== src/Tests.antt =====
-- Concrete inputs, and the theorems applied to them.
pub mod Samples
mod Builds
mod Statuses
mod Specs
mod Reports
mod Credentials
mod Console
mod Lifecycles
mod Configs
mod Reconciles
