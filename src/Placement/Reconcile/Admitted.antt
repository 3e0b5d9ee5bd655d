-- ===== src/Placement/Reconcile/Admitted.antt =====
-- The webhook and the placement controller together.
use wto.Common.{
  String, ◌≡◌, refl, ◌∙◌, ap, Option, none, some, [], ◌∷◌, ◌==◌, All, arith, Bool-cases, inl, inr,
  eq_iff,
}
use wto.Common.Map.{Map, lookup, or_else, HasUniqueKeys}
use wto.Api.{Pod, NodePlacement, PlacementConfig, WorkloadProfileSpec, placement_type_node}
use wto.Webhook.Handle.{check_blocking_conflicts, selector_of_node, node_selector_of}
use wto.Webhook.Handle.Conflicts.{Agrees, check_blocking_conflicts-eq-none_iff}
use wto.Placement.Gates.{apply_node_placement}
use wto.Placement.Gates.Laws.{apply_node_placement-lookup}
use wto.Placement.Reconcile.{place_node, apply_placement}

pub Agrees-at :
    (pod_selector selector : Map String) (k v : String)
    → All (λ e. Agrees (lookup e.0 pod_selector) e.1) selector
    → lookup k pod_selector ≡ some v
    → or_else (lookup k selector) (some v) ≡ some v
unfolding lookup
Agrees-at pod_selector [] k v h at = refl
Agrees-at pod_selector ((j, w) ∷ selector) k v (here, h) at =
    ground (arith, eq_iff j k, Agrees-at pod_selector selector k v h at)

module _ {Q : Type 0} where
  place_node-lookup :
      (pod : Pod Q) (node : Option NodePlacement) (k : String)
      → HasUniqueKeys (selector_of_node node)
      → lookup k (place_node pod node).node_selector
        ≡ or_else (lookup k (selector_of_node node)) (lookup k pod.node_selector)
  unfolding place_node lookup
  place_node-lookup pod none k unique = refl
  place_node-lookup pod (some node) k unique = apply_node_placement-lookup pod node k unique

  -- The switch sets no label but those that the webhook has compared with the pod's.
  pub apply_placement-lookup :
      (pod : Pod Q) (placement : Option PlacementConfig) (k : String)
      → HasUniqueKeys (node_selector_of placement)
      → lookup k (apply_placement pod placement).node_selector
        ≡ or_else (lookup k (node_selector_of placement)) (lookup k pod.node_selector)
  unfolding apply_placement place_node lookup
  apply_placement-lookup pod none k unique = refl
  apply_placement-lookup pod (some placement) k unique =
      elim (Bool-cases (placement.type == placement_type_node)) [
        | inl is_node ↦ rw is_node (place_node-lookup pod placement.node k (rw is_node at unique))
        | inr other ↦ rw other
      ]

  -- A placement writes the node selector and the tolerations.
  pub record IsPlacement (pod pod' : Pod Q) : Type 0 where
    pub scheduling_gates : pod'.scheduling_gates ≡ pod.scheduling_gates
    pub containers : pod'.containers ≡ pod.containers
    pub resource_claims : pod'.resource_claims ≡ pod.resource_claims
    pub labels : pod'.labels ≡ pod.labels
    pub annotations : pod'.annotations ≡ pod.annotations

  IsPlacement-of_same : {pod pod' : Pod Q} → pod' ≡ pod → IsPlacement pod pod'
  IsPlacement-of_same h = record {
    scheduling_gates = ap (λ (p : Pod Q). p.scheduling_gates) h;
    containers = ap (λ (p : Pod Q). p.containers) h;
    resource_claims = ap (λ (p : Pod Q). p.resource_claims) h;
    labels = ap (λ (p : Pod Q). p.labels) h;
    annotations = ap (λ (p : Pod Q). p.annotations) h;
  }

  place_node_frame :
      (pod : Pod Q) (node : Option NodePlacement) → IsPlacement pod (place_node pod node)
  unfolding place_node apply_node_placement
  place_node_frame pod none = IsPlacement-of_same refl
  place_node_frame pod (some node) = record {
    scheduling_gates = refl;
    containers = refl;
    resource_claims = refl;
    labels = refl;
    annotations = refl;
  }

  pub apply_placement_frame :
      (pod : Pod Q) (placement : Option PlacementConfig)
      → IsPlacement pod (apply_placement pod placement)
  unfolding apply_placement
  apply_placement_frame pod none = IsPlacement-of_same refl
  apply_placement_frame pod (some placement) =
      elim (Bool-cases (placement.type == placement_type_node)) [
        | inl is_node ↦ rw is_node (place_node_frame pod placement.node)
        | inr other ↦ rw other (IsPlacement-of_same refl)
      ]

  -- If the conflict check passes for a spec whose node selector has no key twice, applying the
  -- spec's placement keeps the value of every label that the pod's own selector asks for.
  pub apply_placement_keeps_selector :
      (pod : Pod Q) (spec : WorkloadProfileSpec Q) (k v : String)
      → HasUniqueKeys (node_selector_of spec.placement)
      → check_blocking_conflicts pod spec ≡ none
      → lookup k pod.node_selector ≡ some v
      → lookup k (apply_placement pod spec.placement).node_selector ≡ some v
  apply_placement_keeps_selector pod spec k v unique passed at =
      apply_placement-lookup pod spec.placement k unique
      ∙ rw at (
          Agrees-at pod.node_selector (node_selector_of spec.placement) k v
            ((check_blocking_conflicts-eq-none_iff pod spec).0 passed).1 at)
