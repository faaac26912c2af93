-- ===== src/Controller.antt =====
-- internal/controller: the operator's reconciler.
pub mod Messages
pub mod Steps
pub mod History
pub mod Conditions
pub mod Faults
pub mod Sizes
pub mod Inputs
pub mod Pods
pub mod Measure
pub mod Lifecycle
pub mod Config
pub mod Exec
pub mod Cleanup
pub mod Build
pub mod Credential
pub mod Admission
pub mod Reconcile
