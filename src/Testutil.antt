-- ===== src/Testutil.antt =====
-- internal/testutil/testutil.go: the builders of the tests. A builder is the object that it holds:
-- each method returns the builder it was called on, and Build copies the object.
pub mod Pods
pub mod Profiles
pub mod Templates
pub mod TypeConfigs
