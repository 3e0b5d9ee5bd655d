-- ===== src/Api.antt =====
-- The API types: those of api/v1alpha1, and the Kubernetes types that the code reads and writes.
mod Text
mod Kube
mod Conditions
mod Profile
mod Template
mod TypeConfig
pub mod Validation
pub use Text.*
pub use Kube.*
pub use Conditions.*
pub use Profile.*
pub use Template.*
pub use TypeConfig.*
