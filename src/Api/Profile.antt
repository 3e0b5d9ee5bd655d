-- ===== src/Api/Profile.antt =====
-- api/v1alpha1/workloadprofile_types.go
use wto.Common.{ℕ, String, Bool, Option, List}
use wto.Common.Int.{ℤ}
use wto.Common.Map.{Map}
use wto.Api.Text.{Message}
use wto.Api.Kube.{ResourceRequirements, Toleration, DeviceRequest}
use wto.Api.Conditions.{Condition}

pub record ResourceDefaults (Q : Type 0) : Type 0 where
  pub resources : ResourceRequirements Q

-- `index` is an int32
pub record ContainerResources (Q : Type 0) : Type 0 where
  pub name : Option String
  pub index : Option ℤ
  pub resources : ResourceRequirements Q

pub record DeviceClaim : Type 0 where
  pub name : String
  pub request : DeviceRequest

abbrev pub placement_type_node : String
placement_type_node = "Node"

abbrev pub placement_type_queue : String
placement_type_queue = "Queue"

pub record NodePlacement : Type 0 where
  pub node_selector : Map String
  pub tolerations : List Toleration

pub record QueuePlacement : Type 0 where
  pub local_queue_name : String
  pub priority_class : Option String

pub record PlacementConfig : Type 0 where
  pub type : String
  pub node : Option NodePlacement
  pub queue : Option QueuePlacement

pub record WorkloadProfileSpec (Q : Type 0) : Type 0 where
  pub template_ref : Option String
  pub defaults : Option (ResourceDefaults Q)
  pub containers : List (ContainerResources Q)
  pub device_claims : List DeviceClaim
  pub placement : Option PlacementConfig
  pub target_kind : Option String

pub record QuotaSummary : Type 0 where
  pub fit : Bool
  pub message : Message
  pub checked_at : Option ℕ

-- The counts are int32s, the generations int64s that the API server counts up from 1.
pub record WorkloadProfileStatus (Q : Type 0) : Type 0 where
  pub conditions : List Condition
  pub resolved_spec : Option (WorkloadProfileSpec Q)
  pub template_generation : Option ℕ
  pub resolved_generation : Option ℕ
  pub satisfiable_nodes : Option ℤ
  pub applied_workloads : Option ℤ
  pub drifted_workloads : Option ℤ
  pub quota_summary : Option QuotaSummary

-- with the fields of ObjectMeta that the code reads
pub record WorkloadProfile (Q : Type 0) : Type 0 where
  pub name : String
  pub namespace : String
  pub generation : ℕ
  pub finalizers : List String
  pub deletion_timestamp : Option ℕ
  pub spec : WorkloadProfileSpec Q
  pub status : WorkloadProfileStatus Q
