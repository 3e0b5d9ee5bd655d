-- ===== src/Profile.antt =====
-- internal/controller/profile_controller.go: the controller that resolves profiles.
pub mod Conditions
pub mod Nodes
pub mod TargetKind
pub mod Resolve
pub mod Status
pub mod Deletion
pub mod Requeue
pub mod Reconcile
