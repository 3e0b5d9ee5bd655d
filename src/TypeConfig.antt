-- ===== src/TypeConfig.antt =====
-- internal/controller/workloadtype_controller.go
pub mod Conditions
pub mod Reconcile
