-- ===== src/Placement.antt =====
-- internal/controller/placement_controller.go: the controller that places gated pods.
pub mod Quota
pub mod Gates
pub mod Reconcile
