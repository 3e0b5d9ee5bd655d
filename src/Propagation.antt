-- ===== src/Propagation.antt =====
-- internal/controller/propagation_controller.go
pub mod Registry
pub mod Annotate
pub mod Reconcile
