-- ===== src/Placement/Quota.antt =====
-- internal/controller/placement_controller.go: checkQuota. A result `some reason` is the Go code's
-- `reason, false`, and `none` its `"", true`.
pub mod Verdict
pub mod Devices
use Prim.Native.Nat.{Ordering}
use Prim.Native.String
use wto.Common.{
  ℕ, String, Bool, true, false, Option, none, some, List, [], ◌∷◌, is_empty, if◌then◌else◌,
}
use wto.Common.Int.{ℤ, pos, negsuc}
use wto.Common.Map.{Map, lookup, or_else}
use wto.Common.Text.{concat}
use wto.Api.{
  Arg, Message, sprintf, ResourceRequirements, ResourceQuota, ExactDeviceRequest, DeviceRequest,
  DeviceClaim, ResourceDefaults, ContainerResources, WorkloadProfileSpec, WorkloadProfile,
}
use wto.Quantity.{Quantities}

-- The loops that return the first reason that they meet.
abbrev pub first_reason {ℓ} : {A : Type ℓ} → (A → Option Message) → List A → Option Message
first_reason f [] = none
first_reason f (x ∷ xs) = or_else (f x) (first_reason f xs)

abbrev pub is_gt : Ordering → Bool
is_gt Ordering.gt = true
is_gt _ = false

abbrev pub requests_key : String → String
requests_key resource_name = concat ("requests." ∷ resource_name ∷ [])

abbrev pub device_key : String → String
device_key class_name = concat (class_name ∷ ".deviceclass.resource.k8s.io/devices" ∷ [])

-- the count of an exact request, 1 where it is 0
abbrev pub device_count : ℤ → ℤ
device_count (pos ℕ.zero) = pos 1
device_count n = n

module _ {Q : Type 0} where
  -- resolveProfileResources
  unfoldable pub effective_spec : WorkloadProfile Q → WorkloadProfileSpec Q
  effective_spec profile = elim (profile.status.resolved_spec) [
    | none ↦ profile.spec
    | some resolved ↦ resolved
  ]

  pub first_resources :
      List (ContainerResources Q) → Option (ResourceDefaults Q) → Option (ResourceRequirements Q)
  first_resources (c ∷ cs) defaults = some c.resources
  first_resources [] (some d) = some d.resources
  first_resources [] none = none

  unfoldable pub resolve_profile_resources : WorkloadProfile Q → Option (ResourceRequirements Q)
  unfolding effective_spec first_resources
  resolve_profile_resources profile =
      first_resources (effective_spec profile).containers (effective_spec profile).defaults

module _ {Q : Type 0} (ops : Quantities Q) where
  abbrev pub used_or_zero : Option Q → Q
  used_or_zero none = ops.zero
  used_or_zero (some used) = used

  -- the comparison of both loops
  shortage : Message → Q → Option Q → Q → Option Message
  shortage reason requested none used = none
  shortage reason requested (some hard) used =
      if is_gt (ops.cmp requested (ops.sub hard used)) then some reason else none

  -- the text of both loops; the loops use it only where there is a hard limit
  quota_reason : String → ResourceQuota Q → String → Arg → Option Q → Q → Message
  quota_reason format quota resource requested none used = sprintf format []
  quota_reason format quota resource requested (some hard) used = sprintf format (
      Arg.q quota.name
      ∷ Arg.s resource
      ∷ requested
      ∷ Arg.s (ops.show (ops.sub hard used))
      ∷ Arg.s (ops.show used)
      ∷ Arg.s (ops.show hard)
      ∷ [])

  unfoldable pub hard_request : ResourceQuota Q → String → Option Q
  hard_request quota resource_name =
      or_else (lookup (requests_key resource_name) quota.hard) (lookup resource_name quota.hard)

  unfoldable pub used_request : ResourceQuota Q → String → Q
  used_request quota resource_name =
      used_or_zero
        (or_else (lookup (requests_key resource_name) quota.used) (lookup resource_name quota.used))

  -- one round of the loop over the requests
  request_shortage : ResourceQuota Q → String × Q → Option Message
  request_shortage quota (resource_name, requested) =
      let hard = hard_request quota resource_name in
      let used = used_request quota resource_name in
      shortage
        (quota_reason
          "ResourceQuota %q: %s requested=%s, remaining=%s (used=%s, hard=%s). Wait for other workloads to complete or contact admin to increase quota."
          quota resource_name (Arg.s (ops.show requested)) hard used)
        requested hard used

  -- one round of the loop over the device claims
  exact_shortage : ResourceQuota Q → Option ExactDeviceRequest → Option Message
  exact_shortage quota none = none
  exact_shortage quota (some exactly) =
      let key = device_key exactly.device_class_name in
      let hard = lookup key quota.hard in
      let used = used_or_zero (lookup key quota.used) in
      let requested = ops.new_quantity (device_count exactly.count) in
      shortage
        (quota_reason
          "ResourceQuota %q: %s requested=%d devices, remaining=%s (used=%s, hard=%s). Wait for devices to be released or contact admin to increase quota."
          quota key (Arg.d (device_count exactly.count)) hard used)
        requested hard used

  claim_shortage : ResourceQuota Q → DeviceClaim → Option Message
  claim_shortage quota claim = exact_shortage quota claim.request.exactly

  -- the two loops, for the resources that were resolved; without resources there is neither
  check_resources :
      ResourceQuota Q → WorkloadProfile Q → Option (ResourceRequirements Q) → Option Message
  check_resources quota profile none = none
  check_resources quota profile (some resources) =
      or_else (first_reason (request_shortage quota) resources.requests)
        (first_reason (claim_shortage quota) profile.spec.device_claims)

  -- checkResourceQuota
  unfoldable pub check_resource_quota : ResourceQuota Q → WorkloadProfile Q → Option Message
  unfolding check_resources request_shortage claim_shortage exact_shortage shortage quota_reason
  check_resource_quota quota profile =
      check_resources quota profile (resolve_profile_resources profile)

  -- checkQuota, over the listed quotas; `none` is a list that failed
  unfoldable pub check_quota : Option (List (ResourceQuota Q)) → WorkloadProfile Q → Option Message
  check_quota none profile = none
  check_quota (some quotas) profile =
      first_reason (λ quota. check_resource_quota quota profile) quotas
