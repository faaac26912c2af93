-- ===== src/Api.antt =====
-- api/v1alpha1/app_types.go: the App resource.
pub mod Spec
pub mod Status
pub mod App
pub mod Json
