-- ===== src/Placement/Gates/Laws.antt =====
-- The gate taken off again, and the node selector after placement.
use mathlib.Core.Bool.{or-true}
use mathlib.Core.List.{append-nil}
use wto.Common.{
  String, ◌≡◌, refl, ◌∙◌, ap, Bool, true, false, not, List, [], ◌∷◌, ◌==◌, any, keep_if, any-append,
  keep_if-append, is_empty, arith, Bool-cases, inl, inr, if◌then◌else◌,
}
use wto.Common.Map.{Map, lookup, insert_all, or_else, HasUniqueKeys, lookup-insert_all}
use wto.Api.{Pod, NodePlacement}
use wto.Webhook.Names.{scheduling_gate}
use wto.Webhook.Handle.{add_scheduling_gate}
use wto.Placement.Gates.{has_scheduling_gate, remove_scheduling_gate, apply_node_placement}

abbrev other_gate : String → Bool
other_gate gate = not (gate == scheduling_gate)

kept_has_none :
    (gates : List String) → any (λ g. g == scheduling_gate) (keep_if other_gate gates) ≡ false
unfolding keep_if
kept_has_none [] = refl
kept_has_none (g ∷ gates) = ground (arith, kept_has_none gates)

-- Where the gate is not there, all gates are kept.
kept_all :
    (gates : List String)
    → any (λ g. g == scheduling_gate) gates ≡ false
    → keep_if other_gate gates ≡ gates
unfolding keep_if
kept_all [] h = refl
kept_all (g ∷ gates) h = ground (arith, kept_all gates)

-- The test for an empty selector changes nothing.
insert_nonempty :
    (from m : Map String) → (if is_empty from then m else insert_all from m) ≡ insert_all from m
unfolding insert_all
insert_nonempty [] m = refl
insert_nonempty (e ∷ from) m = refl

module _ {Q : Type 0} where
  pub has-remove_scheduling_gate :
      (pod : Pod Q) → has_scheduling_gate (remove_scheduling_gate pod) ≡ false
  unfolding has_scheduling_gate remove_scheduling_gate
  has-remove_scheduling_gate pod = kept_has_none pod.scheduling_gates

  pub has-add_scheduling_gate : (pod : Pod Q) → has_scheduling_gate (add_scheduling_gate pod) ≡ true
  unfolding has_scheduling_gate add_scheduling_gate
  has-add_scheduling_gate pod =
      elim (Bool-cases (any (λ g. g == scheduling_gate) pod.scheduling_gates)) [
        | inl there ↦ rw there there
        | inr not_there ↦ rw not_there (
            rw (any-append (λ g. g == scheduling_gate) pod.scheduling_gates (scheduling_gate ∷ []))
              (or-true (any (λ g. g == scheduling_gate) pod.scheduling_gates)))
      ]

  -- The placement controller takes off exactly what the webhook put on: a pod that came without
  -- the gate is as it came once the gate is added and removed.
  pub remove-add_scheduling_gate :
      (pod : Pod Q)
      → has_scheduling_gate pod ≡ false
      → remove_scheduling_gate (add_scheduling_gate pod) ≡ pod
  unfolding has_scheduling_gate remove_scheduling_gate add_scheduling_gate
  remove-add_scheduling_gate pod fresh = rw fresh (
      ap (λ gates. record pod { scheduling_gates = gates })
        (keep_if-append other_gate pod.scheduling_gates (scheduling_gate ∷ [])
          ∙ unfold keep_if in append-nil _ ∙ kept_all pod.scheduling_gates fresh))

  -- The labels that the node must have: the placement's, and else the pod's.
  pub apply_node_placement-lookup :
      (pod : Pod Q) (node : NodePlacement) (k : String)
      → HasUniqueKeys node.node_selector
      → lookup k (apply_node_placement pod node).node_selector
        ≡ or_else (lookup k node.node_selector) (lookup k pod.node_selector)
  unfolding apply_node_placement
  apply_node_placement-lookup pod node k unique =
      ap (lookup k) (insert_nonempty node.node_selector pod.node_selector)
      ∙ lookup-insert_all k node.node_selector pod.node_selector unique
