-- ===== src/Profile/Status.antt =====
-- internal/controller/profile_controller.go: updateStatus.
pub mod Validity
pub mod Blocking
use wto.Common.{
  ℕ, String, Bool, true, false, not, ◌&&◌, ◌||◌, Option, none, some, List, [], ◌∷◌, ◌==◌, any, all,
  is_empty, if◌then◌else◌,
}
use wto.Common.Int.{ℤ}
use wto.Api.{
  Arg, Message, sprintf, Error, Result, ok, err, Fetch, found, not_found, failed, NamespacedName,
  Condition, ConditionStatus, condition_true, condition_false, condition_unknown, condition_valid,
  condition_template_found, condition_namespace_allowed, condition_dra_enabled,
  condition_device_class_available, ExactDeviceRequest, DeviceClaim, PlacementConfig,
  QueuePlacement, placement_type_queue, Pod, Node, WorkloadProfileSpec, WorkloadProfileStatus,
  WorkloadProfile, WorkloadTypeConfig,
}
use wto.Webhook.Names.{claim_template_name}
use wto.Quantity.{Quantities}
use wto.Client.{ProfileClient, ResourceClaimTemplate}
use wto.Profile.Conditions.{is_false, set_condition, remove_condition}
use wto.Profile.Nodes.{count_satisfiable, count_applied}
use wto.Profile.TargetKind.{validate_target_kind}

abbrev pub class_in : List String → Option ExactDeviceRequest → Bool
class_in classes none = false
class_in classes (some exactly) = any (λ dc. dc == exactly.device_class_name) classes

-- draAvailable: some exact claim names a class of the list; a list that failed leaves it false
unfoldable pub dra_available : Option (List String) → List DeviceClaim → Bool
dra_available none claims = false
dra_available (some classes) claims = any (λ claim. class_in classes claim.request.exactly) claims

unfoldable pub set_dra_conditions :
    ℕ → ℕ → Bool → List DeviceClaim → List Condition → List Condition
set_dra_conditions now generation available [] conditions =
    remove_condition condition_device_class_available
      (remove_condition condition_dra_enabled conditions)
set_dra_conditions now generation available (claim ∷ claims) conditions =
    let enabled =
      set_condition now generation condition_dra_enabled condition_true "DRAAvailable"
        (sprintf "DRA API is available on this cluster" []) conditions in
    if available
    then set_condition now generation condition_device_class_available condition_true "Found"
        (sprintf "Referenced DeviceClasses exist" []) enabled
    else set_condition now generation condition_device_class_available condition_false "NotFound"
        (sprintf "One or more referenced DeviceClasses not found" []) enabled

-- a queue placement names its queue
abbrev pub names_queue : Option QueuePlacement → Bool
names_queue none = false
names_queue (some queue) = not (queue.local_queue_name == "")

abbrev pub queue_valid : Option PlacementConfig → Bool
queue_valid none = true
queue_valid (some placement) =
    if placement.type == placement_type_queue then names_queue placement.queue else true

-- `errors.IsNotFound(err)` does not hold: any other error passes
abbrev pub not_missing : Fetch ResourceClaimTemplate → Bool
not_missing (found t) = true
not_missing (not_found e) = false
not_missing (failed e) = true

-- the last loop over the conditions: one that is False and makes the profile invalid
abbrev pub is_blocking : Condition → Bool
is_blocking c =
    (c.type == condition_template_found || c.type == condition_namespace_allowed)
    && is_false c.status

module _ {Q W : Type 0} (ops : Quantities Q) (client : ProfileClient Q W) where
  abbrev pub claim_key : WorkloadProfile Q → DeviceClaim → NamespacedName
  claim_key profile claim = record {
    namespace = profile.namespace;
    name = claim_template_name profile.name claim.name;
  }

  -- the conditions when `valid` is decided
  pub checked_conditions : WorkloadProfile Q → WorkloadProfileSpec Q → W → List Condition
  checked_conditions profile resolved w =
      validate_target_kind (client.now w) profile.generation profile.spec.target_kind
        resolved.containers (λ kind. client.get_type_config kind w)
        (set_dra_conditions (client.now w) profile.generation
          (dra_available (client.list_device_classes w) resolved.device_claims)
          resolved.device_claims profile.status.conditions)

  -- `valid`
  pub is_valid : WorkloadProfile Q → WorkloadProfileSpec Q → W → Bool
  is_valid profile resolved w =
      queue_valid resolved.placement
      && all (λ claim. not_missing (client.get_claim_template (claim_key profile claim) w))
          resolved.device_claims
      && not (any is_blocking (checked_conditions profile resolved w))

  pub final_conditions : WorkloadProfile Q → WorkloadProfileSpec Q → W → List Condition
  final_conditions profile resolved w =
      if is_valid profile resolved w
      then set_condition (client.now w) profile.generation condition_valid condition_true "Valid"
          (sprintf "Profile is structurally valid and all dependencies exist" [])
          (checked_conditions profile resolved w)
      else set_condition (client.now w) profile.generation condition_valid condition_false "Invalid"
          (sprintf "Profile has missing dependencies" []) (checked_conditions profile resolved w)

  -- countSatisfiableNodes: a list that failed leaves the count
  satisfiable_nodes : WorkloadProfileSpec Q → Option ℤ → Option (List (Node Q)) → Option ℤ
  satisfiable_nodes resolved before none = before
  satisfiable_nodes resolved before (some nodes) = some (count_satisfiable ops nodes resolved)

  -- countAppliedWorkloads
  applied_workloads : String → Option ℤ → Result (List (Pod Q)) → Option ℤ
  applied_workloads name before (err e) = before
  applied_workloads name before (ok pods) = some (count_applied pods name)

  -- the profile that updateStatus patches in
  unfoldable pub updated : WorkloadProfile Q → WorkloadProfileSpec Q → W → WorkloadProfile Q
  unfolding satisfiable_nodes applied_workloads final_conditions is_valid checked_conditions
  updated profile resolved w = record profile {
    status = record (profile.status) {
      conditions = final_conditions profile resolved w;
      resolved_spec = some resolved;
      satisfiable_nodes =
          satisfiable_nodes resolved profile.status.satisfiable_nodes (client.list_nodes w);
      applied_workloads =
          applied_workloads profile.name profile.status.applied_workloads
            (client.list_pods profile.namespace w);
    };
  }

  -- updateStatus: the base of the patch is the profile as it is passed in
  unfoldable pub update_status : WorkloadProfile Q → WorkloadProfileSpec Q → W → Option Error × W
  unfolding updated
  update_status profile resolved w = client.patch_status profile (updated profile resolved w) w
