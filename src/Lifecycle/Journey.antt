-- ===== src/Lifecycle/Journey.antt =====
-- The webhook and the placement controller together: a pod from its creation to its release.
use wto.Common.{
  String, ◌≡◌, refl, ◌∙◌, ap, true, false, Option, none, some, List, All, arith, Option-cases, inl,
  inr,
}
use wto.Common.Map.{Map, lookup, or_else, HasUniqueKeys}
use wto.Api.{Pod, WorkloadProfileSpec, WorkloadProfile}
use wto.Webhook.Inject.Frame.{IsFramed}
use wto.Webhook.Handle.{
  add_scheduling_gate, set_cost_labels, set_tracking_annotations, check_blocking_conflicts,
  node_selector_of, mutate,
}
use wto.Webhook.Handle.Conflicts.{Agrees, check_blocking_conflicts-eq-none_iff}
use wto.Webhook.Handle.Mutation.{mutate-eq-some}
use wto.Placement.Gates.{has_scheduling_gate, remove_scheduling_gate}
use wto.Placement.Gates.Laws.{has-add_scheduling_gate, remove-add_scheduling_gate}
use wto.Placement.Reconcile.{placement_of, apply_placement}
use wto.Placement.Reconcile.Admitted.{Agrees-at, apply_placement-lookup, apply_placement_frame}
use wto.Placement.Reconcile.Progress.{placed}

-- The selectors agree, so it does not matter which of the two wins.
or_else-Agrees :
    (pod_selector selector : Map String) (k : String)
    → All (λ e. Agrees (lookup e.0 pod_selector) e.1) selector
    → or_else (lookup k selector) (lookup k pod_selector)
      ≡ or_else (lookup k pod_selector) (lookup k selector)
or_else-Agrees pod_selector selector k h = elim (Option-cases (lookup k pod_selector)) [
  | inl absent ↦ rw absent (or_else-none (lookup k selector))
  | inr (v, there) ↦ rw there (Agrees-at pod_selector selector k v h there)
]
  where
    or_else-none : (o : Option String) → or_else o none ≡ o
    or_else-none none = refl
    or_else-none (some v) = refl

module _ {Q : Type 0} where
  same_gates :
      (a b : Pod Q)
      → a.scheduling_gates ≡ b.scheduling_gates
      → (remove_scheduling_gate a).scheduling_gates ≡ (remove_scheduling_gate b).scheduling_gates
  unfolding remove_scheduling_gate
  same_gates a b h =
      ap
        (λ gates. (remove_scheduling_gate (record a { scheduling_gates = gates })).scheduling_gates)
        h

  same_held :
      (a b : Pod Q)
      → a.scheduling_gates ≡ b.scheduling_gates
      → has_scheduling_gate a ≡ has_scheduling_gate b
  unfolding has_scheduling_gate
  same_held a b h = ap (λ gates. has_scheduling_gate (record a { scheduling_gates = gates })) h

  gates_of_framed :
      (pod claimed : Pod Q)
      → IsFramed pod claimed
      → ((add_scheduling_gate claimed).scheduling_gates
          ≡ (add_scheduling_gate pod).scheduling_gates)
        × ((add_scheduling_gate claimed).node_selector ≡ pod.node_selector)
  unfolding add_scheduling_gate
  gates_of_framed pod claimed frame =
      rw frame.scheduling_gates (ground (arith, frame.node_selector))

  gates_of_admitted :
      (pod admitted claimed : Pod Q) (profile : WorkloadProfile Q) (overrides : List String)
      → IsFramed pod claimed
      → admitted
        ≡ set_tracking_annotations
            (set_cost_labels (add_scheduling_gate claimed) profile)
            profile
            overrides
      → (admitted.scheduling_gates ≡ (add_scheduling_gate pod).scheduling_gates)
        × (admitted.node_selector ≡ pod.node_selector)
  unfolding set_tracking_annotations set_cost_labels
  gates_of_admitted pod admitted claimed profile overrides frame is =
      rw is (gates_of_framed pod claimed frame)

  -- The pod as it is let go, beside the pod as it was created and as it was admitted.
  pub record IsPlaced (pod admitted : Pod Q) (selector : Map String) (free : Pod Q) : Type 0 where
    pub held : has_scheduling_gate admitted ≡ true
    pub scheduling_gates : free.scheduling_gates ≡ pod.scheduling_gates
    pub node_selector :
        (k : String)
        → lookup k free.node_selector ≡ or_else (lookup k pod.node_selector) (lookup k selector)
    pub containers : free.containers ≡ admitted.containers
    pub resource_claims : free.resource_claims ≡ admitted.resource_claims
    pub labels : free.labels ≡ admitted.labels
    pub annotations : free.annotations ≡ admitted.annotations

  -- A pod that comes without the gate, that no conflict with the resolved spec blocks, and that
  -- the webhook mutates without a panic has the gate, and as it is let go by a profile with the
  -- same placement, whose node selector has no key twice, it has the gates that it came with, for
  -- every label of the node its own value or else the placement's, and the containers, claims,
  -- labels and annotations that it was admitted with.
  pub placed_after_mutate :
      (pod admitted : Pod Q) (profile later : WorkloadProfile Q) (resolved : WorkloadProfileSpec Q)
      → has_scheduling_gate pod ≡ false
      → check_blocking_conflicts pod resolved ≡ none
      → HasUniqueKeys (node_selector_of resolved.placement)
      → mutate pod profile resolved ≡ some admitted
      → placement_of later ≡ resolved.placement
      → IsPlaced pod admitted (node_selector_of resolved.placement) (placed admitted later)
  unfolding remove_scheduling_gate
  placed_after_mutate pod admitted profile later resolved fresh passed unique mutation same =
      let (claimed, frame, is) = mutate-eq-some pod admitted profile resolved mutation in
      let kept = apply_placement_frame admitted resolved.placement in
      let (gates, selector) = gates_of_admitted pod admitted claimed profile _ frame is in
      record {
        held = same_held admitted (add_scheduling_gate pod) gates ∙ has-add_scheduling_gate pod;
        scheduling_gates =
            same_gates (apply_placement admitted (placement_of later)) (add_scheduling_gate pod)
              ((apply_placement_frame admitted (placement_of later)).scheduling_gates ∙ gates)
            ∙ ap (λ (p : Pod Q). p.scheduling_gates) (remove-add_scheduling_gate pod fresh);
        node_selector = λ k.
            ap (λ o. lookup k (apply_placement admitted o).node_selector) same
            ∙ apply_placement-lookup admitted resolved.placement k unique
            ∙ ap (λ m. or_else (lookup k (node_selector_of resolved.placement)) (lookup k m))
                selector
            ∙ or_else-Agrees pod.node_selector (node_selector_of resolved.placement) k
                ((check_blocking_conflicts-eq-none_iff pod resolved).0 passed).1;
        containers = (apply_placement_frame admitted (placement_of later)).containers;
        resource_claims = (apply_placement_frame admitted (placement_of later)).resource_claims;
        labels = (apply_placement_frame admitted (placement_of later)).labels;
        annotations = (apply_placement_frame admitted (placement_of later)).annotations;
      }
