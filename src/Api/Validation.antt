-- ===== src/Api/Validation.antt =====
-- api/v1alpha1: the rules of validation that the types carry, which the API server checks wherever a
-- value of the type is written. Go's omitempty writes no field for a nil pointer and for an empty
-- list, so `has` is false there. What the schema asks of the Kubernetes types in a spec is left out.
use wto.Common.{
  Bool, true, not, ◌&&◌, ◌||◌, Option, none, some, ◌==◌, is_some, is_empty, all, if◌then◌else◌,
}
use wto.Api.Profile.{
  ContainerResources, placement_type_node, placement_type_queue, PlacementConfig,
  WorkloadProfileSpec,
}
use wto.Api.Template.{WorkloadProfileTemplateSpec}

-- the type is one of the two, and of the two placements there is the one of the type
abbrev pub placement_config_accepted : PlacementConfig → Bool
placement_config_accepted placement =
    (placement.type == placement_type_node || placement.type == placement_type_queue)
    && (if placement.type == placement_type_node then is_some placement.node else true)
    && (if placement.type == placement_type_queue then is_some placement.queue else true)
    && (if placement.type == placement_type_node then not (is_some placement.queue) else true)
    && (if placement.type == placement_type_queue then not (is_some placement.node) else true)

abbrev pub placement_accepted : Option PlacementConfig → Bool
placement_accepted none = true
placement_accepted (some placement) = placement_config_accepted placement

module _ {Q : Type 0} where
  -- either a name or an index, and not both
  abbrev pub container_accepted : ContainerResources Q → Bool
  container_accepted c =
      (is_some c.name || is_some c.index) && not (is_some c.name && is_some c.index)

  -- `has(self.defaults) || has(self.containers) || has(self.deviceClaims)`
  abbrev pub has_hardware : WorkloadProfileSpec Q → Bool
  has_hardware spec =
      is_some spec.defaults || not (is_empty spec.containers) || not (is_empty spec.device_claims)

  -- the two rules of WorkloadProfileSpec, and those of its fields
  unfoldable pub spec_accepted : WorkloadProfileSpec Q → Bool
  spec_accepted spec =
      (is_some spec.template_ref || has_hardware spec)
      && (not (is_some spec.template_ref) || not (has_hardware spec))
      && all container_accepted spec.containers
      && placement_accepted spec.placement

  -- a template has the rules of its fields alone
  unfoldable pub template_spec_accepted : WorkloadProfileTemplateSpec Q → Bool
  template_spec_accepted spec = all container_accepted spec.containers
