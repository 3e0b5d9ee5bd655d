-- ===== src/Lifecycle.antt =====
-- The parts together: the profile controller before the webhook, and the webhook before the
-- placement controller.
pub mod Ready
pub mod Journey
pub mod Filter
pub mod Claims
