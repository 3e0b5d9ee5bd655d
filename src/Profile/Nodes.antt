-- ===== src/Profile/Nodes.antt =====
-- internal/controller/profile_controller.go: the counts of nodes and of pods.
pub mod Fit
use Prim.Native.Nat.{Ordering, ◌^◌}
use wto.Common.{
  ℕ, suc, ◌+◌, ◌-◌, ◌%◌, String, Bool, true, false, not, ◌&&◌, ◌||◌, Option, none, some, List, [],
  ◌∷◌, ◌==◌, ltb, all, length, keep_if, if◌then◌else◌,
}
use wto.Common.Int.{ℤ, pos, negsuc}
use wto.Common.Map.{Map, lookup}
use wto.Api.{Pod, Node, ResourceRequirements, NodePlacement, PlacementConfig, WorkloadProfileSpec}
use wto.Webhook.Names.{profile_annotation}
use wto.Quantity.{Quantities}
use wto.Placement.Quota.{is_gt, first_resources}

-- An int32 after n increments from 0.
unfoldable pub int32 : ℕ → ℤ
int32 n = let m = n % 2 ^ 32 in if ltb m (2 ^ 31) then pos m else negsuc (2 ^ 32 - 1 - m)

-- `nodeVal, ok := node.Labels[k]; !ok || nodeVal != v` does not hold
has_label : Map String → String × String → Bool
has_label labels (k, v) = elim (lookup k labels) [ none ↦ false | some node_val ↦ node_val == v ]

-- `podv := m[k]; podv == v`, where a missing key reads as the empty text
abbrev pub reads_as : Option String → String → Bool
reads_as none v = "" == v
reads_as (some w) v = w == v

module _ {Q : Type 0} where
  -- resolveSpecResources
  unfoldable pub resolve_spec_resources : WorkloadProfileSpec Q → Option (ResourceRequirements Q)
  resolve_spec_resources spec = first_resources spec.containers spec.defaults

module _ {Q : Type 0} (ops : Quantities Q) where
  -- one round of the loop over the requests: the node has room, or does not list a resource that
  -- is neither cpu nor memory
  fits_allocatable : Map Q → String × Q → Bool
  fits_allocatable allocatable (name, requested) = elim (lookup name allocatable) [
    | none ↦ not (name == "cpu" || name == "memory")
    | some room ↦ not (is_gt (ops.cmp requested room))
  ]

  fits_resources : Map Q → Option (ResourceRequirements Q) → Bool
  fits_resources allocatable none = true
  fits_resources allocatable (some resources) =
      all (fits_allocatable allocatable) resources.requests

  satisfies_node : Node Q → WorkloadProfileSpec Q → Option NodePlacement → Bool
  satisfies_node node resolved none = true
  satisfies_node node resolved (some placement) =
      all (has_label node.labels) placement.node_selector
      && fits_resources node.allocatable (resolve_spec_resources resolved)

  abbrev pub placement_node : Option PlacementConfig → Option NodePlacement
  placement_node none = none
  placement_node (some placement) = placement.node

  -- nodeSatisfiesProfile; its loop over the tolerations writes a variable that nothing reads
  unfoldable pub node_satisfies_profile : Node Q → WorkloadProfileSpec Q → Bool
  unfolding satisfies_node fits_resources fits_allocatable has_label
  node_satisfies_profile node resolved =
      satisfies_node node resolved (placement_node resolved.placement)

  -- the loop of countSatisfiableNodes
  pub count_satisfiable : List (Node Q) → WorkloadProfileSpec Q → ℤ
  count_satisfiable nodes resolved =
      int32 (length (keep_if (λ node. node_satisfies_profile node resolved) nodes))

module _ {Q : Type 0} where
  -- `pod.Annotations[ProfileAnnotation] == profile.Name`
  unfoldable pub applies_profile : String → Pod Q → Bool
  applies_profile name pod = reads_as (lookup profile_annotation pod.annotations) name

  -- the loop of countAppliedWorkloads
  pub count_applied : List (Pod Q) → String → ℤ
  count_applied pods name = int32 (length (keep_if (applies_profile name) pods))
