-- ===== src/Profile/Conditions.antt =====
-- internal/controller/profile_controller.go: setCondition and removeCondition.
pub mod Laws
pub mod Reads
use wto.Common.{ℕ, String, Bool, true, false, not, List, [], ◌∷◌, ◌==◌, keep_if, if◌then◌else◌}
use wto.Api.{
  Message, Condition, ConditionStatus, condition_true, condition_false, condition_unknown,
}

abbrev pub same_status : ConditionStatus → ConditionStatus → Bool
same_status condition_true condition_true = true
same_status condition_false condition_false = true
same_status condition_unknown condition_unknown = true
same_status _ _ = false

-- c.Status == metav1.ConditionFalse
abbrev pub is_false : ConditionStatus → Bool
is_false condition_false = true
is_false _ = false

-- `now` is the time, `generation` the profile's.
module _ (now generation : ℕ) where
  -- the writes into an entry of the type
  update_condition : Condition → ConditionStatus → String → Message → Condition
  update_condition c status reason message = record c {
    status = status;
    observed_generation = generation;
    last_transition_time = if same_status c.status status then c.last_transition_time else now;
    reason = reason;
    message = message;
  }

  -- setCondition: the first entry of the type is written, or a new one appended
  unfoldable pub set_condition :
      String → ConditionStatus → String → Message → List Condition → List Condition
  unfolding update_condition
  set_condition cond_type status reason message [] =
      record {
        type = cond_type;
        status = status;
        observed_generation = generation;
        last_transition_time = now;
        reason = reason;
        message = message;
      }
      ∷ []
  set_condition cond_type status reason message (c ∷ cs) =
      if c.type == cond_type
      then update_condition c status reason message ∷ cs
      else c ∷ set_condition cond_type status reason message cs

-- removeCondition
unfoldable pub remove_condition : String → List Condition → List Condition
remove_condition cond_type = keep_if (λ c. not (c.type == cond_type))
