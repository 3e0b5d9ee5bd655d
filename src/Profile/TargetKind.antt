-- ===== src/Profile/TargetKind.antt =====
-- internal/controller/profile_controller.go: validateTargetKind.
pub mod Compatible
pub mod Kept
use wto.Common.{
  ℕ, String, Bool, true, false, not, ◌&&◌, Option, none, some, List, [], ◌∷◌, ◌==◌, any, is_empty,
  if◌then◌else◌,
}
use wto.Api.{
  Arg, Message, sprintf, sprintf_error, Fetch, found, not_found, failed, Condition, condition_true,
  condition_false, condition_target_kind_valid, ContainerResources, WorkloadTypeConfig,
}
use wto.Profile.Conditions.{set_condition, remove_condition}

module _ (now generation : ℕ) where
  set_target_kind : Bool → String → Message → List Condition → List Condition
  set_target_kind valid reason message =
      set_condition now generation condition_target_kind_valid
        (if valid then condition_true else condition_false) reason message

  check_containers : String → WorkloadTypeConfig → Option String → List Condition → List Condition
  check_containers kind wtc (some name) = set_target_kind false "ContainerMismatch" (
      sprintf "Container %q not in WorkloadTypeConfig %q known containers %v"
        (Arg.q name ∷ Arg.q kind ∷ Arg.v wtc.spec.known_container_names ∷ []))
  check_containers kind wtc none =
      set_target_kind true "Valid"
        (sprintf "Compatible with workload type %q (%s)" (Arg.q kind ∷ Arg.s wtc.spec.kind ∷ []))

module _ {Q : Type 0} where
  -- the first container that is named and not known
  unfoldable pub unknown_container : List String → List (ContainerResources Q) → Option String
  unknown_container known [] = none
  unknown_container known (c ∷ cs) = elim (c.name) [
    | none ↦ unknown_container known cs
    | some name ↦ if any (λ k. k == name) known then unknown_container known cs else some name
  ]

  -- An empty list of known containers, or of containers, is no mismatch.
  unfoldable pub container_mismatch : List String → List (ContainerResources Q) → Option String
  container_mismatch known containers =
      if not (is_empty known) && not (is_empty containers)
      then unknown_container known containers
      else none

  module _ (now generation : ℕ) where
    check_type_config :
        String
        → List (ContainerResources Q)
        → Fetch WorkloadTypeConfig
        → List Condition
        → List Condition
    check_type_config kind containers (not_found e) =
        set_target_kind now generation false "NotFound"
          (sprintf "WorkloadTypeConfig %q not found" (Arg.q kind ∷ []))
    check_type_config kind containers (failed e) =
        set_target_kind now generation false "Error"
          (sprintf_error "Failed to get WorkloadTypeConfig %q: %v" (Arg.q kind ∷ []) e)
    check_type_config kind containers (found wtc) =
        check_containers now generation kind wtc
          (container_mismatch wtc.spec.known_container_names containers)

    -- validateTargetKind: the target kind of the spec, the containers of the resolved spec, and
    -- the read of a WorkloadTypeConfig
    unfoldable pub validate_target_kind :
        Option String
        → List (ContainerResources Q)
        → (String → Fetch WorkloadTypeConfig)
        → List Condition
        → List Condition
    unfolding check_type_config check_containers set_target_kind container_mismatch
    validate_target_kind none containers get = remove_condition condition_target_kind_valid
    validate_target_kind (some kind) containers get = check_type_config kind containers (get kind)
