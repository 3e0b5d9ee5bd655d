-- ===== src/Api/TypeConfig.antt =====
-- api/v1alpha1/workloadtypeconfig_types.go
use wto.Common.{ℕ, String, Bool, Option, List}
use wto.Common.Map.{Map}
use wto.Api.Conditions.{Condition}

pub record WorkloadTypeConfigSpec : Type 0 where
  pub group : String
  pub version : String
  pub kind : String
  pub resource : String
  pub pod_template_path : Option String
  pub annotation_paths : List String
  pub known_container_names : List String
  pub native_propagation : Bool

pub record WorkloadTypeConfigStatus : Type 0 where
  pub conditions : List Condition
  pub observed_gvk : String

-- with the fields of ObjectMeta that the code reads
pub record WorkloadTypeConfig : Type 0 where
  pub name : String
  pub labels : Map String
  pub generation : ℕ
  pub spec : WorkloadTypeConfigSpec
  pub status : WorkloadTypeConfigStatus
