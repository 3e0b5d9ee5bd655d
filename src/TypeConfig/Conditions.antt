-- ===== src/TypeConfig/Conditions.antt =====
-- internal/controller/workloadtype_controller.go: setWTCCondition.
pub mod Stale
use wto.Common.{ℕ, String, Bool, true, false, List, [], ◌∷◌, ◌==◌, if◌then◌else◌}
use wto.Api.{Message, Condition, ConditionStatus, condition_true, condition_false}
use wto.Profile.Conditions.{same_status}

-- metav1.ConditionTrue if isTrue, and else metav1.ConditionFalse
abbrev pub status_of : Bool → ConditionStatus
status_of true = condition_true
status_of false = condition_false

abbrev pub new_condition : ℕ → ℕ → String → Bool → String → Message → Condition
new_condition now generation cond_type holds reason message = record {
  type = cond_type;
  status = status_of holds;
  observed_generation = generation;
  last_transition_time = now;
  reason = reason;
  message = message;
}

-- setWTCCondition: an entry of the type with the same status is left as it is
unfoldable pub set_wtc_condition :
    ℕ → ℕ → String → Bool → String → Message → List Condition → List Condition
set_wtc_condition now generation cond_type holds reason message [] =
    new_condition now generation cond_type holds reason message ∷ []
set_wtc_condition now generation cond_type holds reason message (c ∷ cs) =
    if c.type == cond_type
    then if same_status c.status (status_of holds)
      then c ∷ cs
      else new_condition now generation cond_type holds reason message ∷ cs
    else c ∷ set_wtc_condition now generation cond_type holds reason message cs
