-- ===== src/Api/Conditions.antt =====
-- metav1.Condition, and the condition types that api/v1alpha1 names.
use wto.Common.{ℕ, String}
use wto.Api.Text.{Message}

pub data ConditionStatus : Type 0 where
  condition_true condition_false condition_unknown : ConditionStatus

-- A time is a number of seconds.
pub record Condition : Type 0 where
  pub type : String
  pub status : ConditionStatus
  pub observed_generation : ℕ
  pub last_transition_time : ℕ
  pub reason : String
  pub message : Message

abbrev pub condition_valid : String
condition_valid = "Valid"

abbrev pub condition_template_found : String
condition_template_found = "TemplateFound"

abbrev pub condition_namespace_allowed : String
condition_namespace_allowed = "NamespaceAllowed"

abbrev pub condition_device_class_available : String
condition_device_class_available = "DeviceClassAvailable"

abbrev pub condition_dra_enabled : String
condition_dra_enabled = "DRAEnabled"

abbrev pub condition_drifted : String
condition_drifted = "Drifted"

abbrev pub condition_target_kind_valid : String
condition_target_kind_valid = "TargetKindValid"

abbrev pub condition_crd_available : String
condition_crd_available = "CRDAvailable"

abbrev pub condition_watch_active : String
condition_watch_active = "WatchActive"
