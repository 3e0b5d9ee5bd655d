-- ===== src/Tests.antt =====
-- Concrete inputs, tests of the definitions on them, and the theorems applied to them.
mod Fixtures
mod Cluster
mod LifecycleTests
mod LagTests
mod RetryTests
mod BuilderTests
mod ValidationTests
mod SetupTests
mod WebhookTests
mod PlacementTests
mod ProfileTests
mod ConditionTests
mod PropagationTests
mod ConvergenceTests
mod TypeConfigTests
