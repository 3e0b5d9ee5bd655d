-- ===== src/Webhook/Handle/Conflicts.antt =====
-- When checkBlockingConflicts finds nothing.
use wto.Common.{
  String, ◌≡◌, refl, ◌↔◌, ◌⊎◌, inl, inr, Option, none, some, [], ◌∷◌, eq_iff, All, arith,
  Option-cases,
}
use wto.Common.Map.{Map, lookup}
use wto.Api.{Pod, WorkloadProfileSpec}
use wto.Webhook.Handle.{selector_conflict, node_selector_of, check_blocking_conflicts}

-- The pod does not ask for another value of a node label.
abbrev pub Agrees : Option String → String → Type 0
Agrees none v = Unit
Agrees (some pod_v) v = pod_v ≡ v

selector_conflict_iff :
    (pod_selector selector : Map String)
    → (selector_conflict pod_selector selector ≡ none)
      ↔ All (λ e. Agrees (lookup e.0 pod_selector) e.1) selector
unfolding selector_conflict
selector_conflict_iff pod_selector [] = (λ _. tt, λ _. refl)
selector_conflict_iff pod_selector ((k, v) ∷ rest) = elim (Option-cases (lookup k pod_selector)) [
  | inl absent ↦
      rw (absent, selector_conflict) (ground (arith, selector_conflict_iff pod_selector rest))
  | inr (w, present) ↦
      rw (present, selector_conflict)
        (ground (arith, selector_conflict_iff pod_selector rest, eq_iff w v))
]

module _ {Q : Type 0} where
  -- No conflict blocks a pod exactly if it has no resource claims or the profile no device claims,
  -- and it gives no label of the placement's node selector another value.
  pub check_blocking_conflicts-eq-none_iff :
      (pod : Pod Q) (spec : WorkloadProfileSpec Q)
      → (check_blocking_conflicts pod spec ≡ none) ↔ (
          ((pod.resource_claims ≡ []) ⊎ (spec.device_claims ≡ []))
          × All (λ e. Agrees (lookup e.0 pod.node_selector) e.1) (node_selector_of spec.placement))
  unfolding check_blocking_conflicts
  check_blocking_conflicts-eq-none_iff pod spec =
      ground (arith, selector_conflict_iff pod.node_selector (node_selector_of spec.placement))
