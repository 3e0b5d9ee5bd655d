-- ===== src/Profile/TargetKind/Kept.antt =====
-- validateTargetKind writes the condition TargetKindValid alone.
use wto.Common.{ℕ, String, ◌≡◌, false, Option, none, some, List, ◌==◌}
use wto.Api.{Fetch, found, not_found, failed, Condition, ContainerResources, WorkloadTypeConfig}
use wto.Profile.Conditions.Reads.{has_false, has_false-set_condition, has_false-remove_condition}
use wto.Profile.TargetKind.{
  set_target_kind, check_containers, check_type_config, validate_target_kind,
}

module _ (now generation : ℕ) (kind : String) (j : String) (cs : List Condition)
    (other : ("TargetKindValid" == j) ≡ false) where
  has_false-check_containers :
      (wtc : WorkloadTypeConfig) (o : Option String)
      → has_false j (check_containers now generation kind wtc o cs) ≡ has_false j cs
  unfolding check_containers set_target_kind
  has_false-check_containers wtc none = has_false-set_condition now generation _ _ _ _ j cs other
  has_false-check_containers wtc (some name) =
      has_false-set_condition now generation _ _ _ _ j cs other

  has_false-check_type_config :
      {Q : Type 0} (containers : List (ContainerResources Q)) (got : Fetch WorkloadTypeConfig)
      → has_false j (check_type_config now generation kind containers got cs) ≡ has_false j cs
  unfolding check_type_config set_target_kind
  has_false-check_type_config containers (not_found e) =
      has_false-set_condition now generation _ _ _ _ j cs other
  has_false-check_type_config containers (failed e) =
      has_false-set_condition now generation _ _ _ _ j cs other
  has_false-check_type_config containers (found wtc) = has_false-check_containers wtc _

pub has_false-validate_target_kind :
    {Q : Type 0} (now generation : ℕ) (kind : Option String)
    (containers : List (ContainerResources Q)) (get : String → Fetch WorkloadTypeConfig)
    (j : String) (cs : List Condition)
    → ("TargetKindValid" == j) ≡ false
    → has_false j (validate_target_kind now generation kind containers get cs) ≡ has_false j cs
unfolding validate_target_kind
has_false-validate_target_kind now generation none containers get j cs other =
    has_false-remove_condition _ j cs other
has_false-validate_target_kind now generation (some kind) containers get j cs other =
    has_false-check_type_config now generation kind j cs other containers (get kind)
