-- ===== src/Api/Kube.antt =====
-- The Kubernetes types, with the fields that the code reads or writes. `Q` is resource.Quantity.
use wto.Common.{String, Option, List}
use wto.Common.Int.{ℤ}
use wto.Common.Map.{Map}

-- corev1.ResourceRequirements; a claim is its name
pub record ResourceRequirements (Q : Type 0) : Type 0 where
  pub requests : Map Q
  pub limits : Map Q
  pub claims : List String

pub record Container (Q : Type 0) : Type 0 where
  pub name : String
  pub resources : ResourceRequirements Q

pub record Toleration : Type 0 where
  pub key : String
  pub operator : String
  pub value : String
  pub effect : String

pub record PodResourceClaim : Type 0 where
  pub name : String
  pub resource_claim_template_name : Option String

-- corev1.Pod, with its ObjectMeta and PodSpec put side by side; a scheduling gate is its name
pub record Pod (Q : Type 0) : Type 0 where
  pub name : String
  pub namespace : String
  pub labels : Map String
  pub annotations : Map String
  pub containers : List (Container Q)
  pub resource_claims : List PodResourceClaim
  pub scheduling_gates : List String
  pub node_selector : Map String
  pub tolerations : List Toleration

pub record Taint : Type 0 where
  pub key : String
  pub value : String

pub record Node (Q : Type 0) : Type 0 where
  pub labels : Map String
  pub taints : List Taint
  pub allocatable : Map Q

-- corev1.ResourceQuota, with its status' two maps
pub record ResourceQuota (Q : Type 0) : Type 0 where
  pub name : String
  pub hard : Map Q
  pub used : Map Q

pub record Namespace : Type 0 where
  pub name : String
  pub labels : Map String

pub record LabelSelectorRequirement : Type 0 where
  pub key : String
  pub operator : String
  pub values : List String

pub record LabelSelector : Type 0 where
  pub match_labels : Map String
  pub match_expressions : List LabelSelectorRequirement

-- resourcev1.ExactDeviceRequest and DeviceRequest; `count` is an int64
pub record ExactDeviceRequest : Type 0 where
  pub device_class_name : String
  pub count : ℤ

pub record DeviceRequest : Type 0 where
  pub name : String
  pub exactly : Option ExactDeviceRequest
