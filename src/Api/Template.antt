-- ===== src/Api/Template.antt =====
-- api/v1alpha1/workloadprofiletemplate_types.go
use wto.Common.{ℕ, String, Option, List}
use wto.Common.Int.{ℤ}
use wto.Api.Kube.{LabelSelector}
use wto.Api.Conditions.{Condition}
use wto.Api.Profile.{ResourceDefaults, ContainerResources, DeviceClaim}

pub record WorkloadProfileTemplateSpec (Q : Type 0) : Type 0 where
  pub defaults : Option (ResourceDefaults Q)
  pub containers : List (ContainerResources Q)
  pub device_claims : List DeviceClaim
  pub namespace_selector : Option LabelSelector

pub record WorkloadProfileTemplateStatus : Type 0 where
  pub conditions : List Condition
  pub binding_count : Option ℤ

pub record WorkloadProfileTemplate (Q : Type 0) : Type 0 where
  pub name : String
  pub generation : ℕ
  pub spec : WorkloadProfileTemplateSpec Q
  pub status : WorkloadProfileTemplateStatus
