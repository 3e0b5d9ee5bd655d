-- ===== src/Webhook/Handle.antt =====
-- internal/webhook/pod_webhook.go: the tests, the gate, the labels and annotations, and `Handle`.
pub mod Conflicts
pub mod Admission
pub mod Mutation
use wto.Webhook.Names.{
  profile_annotation, scheduling_gate, generation_anno, template_gen_anno, overrides_anno,
  profile_label, template_label, kueue_queue_label, kueue_gate,
}
use wto.Webhook.Inject.{inject_resources, inject_dra_claims}
use wto.Common.{
  ℕ, String, Bool, true, false, ◌&&◌, ◌||◌, not, Option, none, some, List, [], ◌∷◌, ◌++◌, ◌==◌,
  is_some, is_empty, any, if◌then◌else◌,
}
use wto.Common.Map.{Map, lookup, insert}
use wto.Common.Text.{show_nat, json_strings}
use wto.Api.{
  Arg, Message, sprintf, sprintf_text, Error, wrapped, Result, ok, err, Fetch, found, not_found,
  failed, NamespacedName, Pod, Condition, ConditionStatus, condition_true, condition_valid,
  placement_type_node, NodePlacement, PlacementConfig, WorkloadProfileSpec, WorkloadProfile,
}

-- c.Status == metav1.ConditionTrue
abbrev pub is_condition_true_status : ConditionStatus → Bool
is_condition_true_status condition_true = true
is_condition_true_status _ = false

-- isConditionTrue, over the profile's conditions: the first of the type decides
unfoldable pub is_condition_true : List Condition → String → Bool
is_condition_true [] cond_type = false
is_condition_true (c ∷ cs) cond_type =
    if c.type == cond_type
    then is_condition_true_status c.status
    else is_condition_true cs cond_type

-- The entries of the profile's node selector, in the order of the loop.
selector_conflict : Map String → Map String → Option Message
selector_conflict pod_selector [] = none
selector_conflict pod_selector ((k, profile_v) ∷ rest) = elim (lookup k pod_selector) [
  | none ↦ selector_conflict pod_selector rest
  | some pod_v ↦
      if pod_v == profile_v
      then selector_conflict pod_selector rest
      else some (
          sprintf
            "nodeSelector key %q: pod has %q but profile has %q — unsatisfiable constraint. Remove the pod's nodeSelector or use a compatible profile."
            (Arg.q k ∷ Arg.q pod_v ∷ Arg.q profile_v ∷ []))
]

abbrev pub selector_of_node : Option NodePlacement → Map String
selector_of_node none = []
selector_of_node (some n) = n.node_selector

-- The node selector that a placement of type Node brings: empty where the code skips the loop.
abbrev pub node_selector_of : Option PlacementConfig → Map String
node_selector_of none = []
node_selector_of (some p) = if p.type == placement_type_node then selector_of_node p.node else []

abbrev dual_allocation : Message
dual_allocation =
    sprintf
      "pod already has resourceClaims and profile has deviceClaims — dual device allocation risk. Remove existing resourceClaims or use a profile without deviceClaims."
      ([])

abbrev insert_some : String → Option String → Map String → Map String
insert_some k none m = m
insert_some k (some v) m = insert k v m

abbrev shown : Option ℕ → Option String
shown none = none
shown (some n) = some (show_nat n)

abbrev marshaled_overrides : List String → Option String
marshaled_overrides [] = none
marshaled_overrides (o ∷ os) = some (json_strings (o ∷ os))

module _ {Q : Type 0} where
  -- isKueueManaged
  unfoldable pub is_kueue_managed : Pod Q → Bool
  is_kueue_managed pod =
      is_some (lookup kueue_queue_label pod.labels)
      || any (λ gate. gate == kueue_gate) pod.scheduling_gates

  -- checkBlockingConflicts; the empty reason is `none`
  unfoldable pub check_blocking_conflicts : Pod Q → WorkloadProfileSpec Q → Option Message
  unfolding selector_conflict
  check_blocking_conflicts pod spec =
      if not (is_empty pod.resource_claims) && not (is_empty spec.device_claims)
      then some dual_allocation
      else selector_conflict pod.node_selector (node_selector_of spec.placement)

  -- addSchedulingGate
  unfoldable pub add_scheduling_gate : Pod Q → Pod Q
  add_scheduling_gate pod =
      if any (λ gate. gate == scheduling_gate) pod.scheduling_gates
      then pod
      else record pod { scheduling_gates = pod.scheduling_gates ++ scheduling_gate ∷ [] }

  -- the template that setCostLabels names: the spec's, or else the resolved spec's
  abbrev pub resolved_template_ref : Option (WorkloadProfileSpec Q) → Option String
  resolved_template_ref none = none
  resolved_template_ref (some resolved) = resolved.template_ref

  template_label_of : WorkloadProfile Q → Option String
  template_label_of profile = elim (profile.spec.template_ref) [
    | some t ↦ some t
    | none ↦ resolved_template_ref profile.status.resolved_spec
  ]

  -- setCostLabels
  unfoldable pub set_cost_labels : Pod Q → WorkloadProfile Q → Pod Q
  unfolding template_label_of
  set_cost_labels pod profile = record pod {
    labels =
        insert_some template_label (template_label_of profile)
          (insert profile_label profile.name pod.labels);
  }

  -- setTrackingAnnotations
  unfoldable pub set_tracking_annotations : Pod Q → WorkloadProfile Q → List String → Pod Q
  set_tracking_annotations pod profile overrides = record pod {
    annotations = insert_some overrides_anno (marshaled_overrides overrides) (
        insert_some template_gen_anno (shown profile.status.template_generation)
          (insert generation_anno (show_nat profile.generation) pod.annotations));
  }

  -- Handle, from the first write to the last; `none` is a panic
  unfoldable pub mutate : Pod Q → WorkloadProfile Q → WorkloadProfileSpec Q → Option (Pod Q)
  mutate pod profile resolved =
      let (pod', overrides) = inject_resources pod resolved in
      elim (inject_dra_claims pod' profile.name resolved) [
        | none ↦ none
        | some claimed ↦ some (
            set_tracking_annotations (set_cost_labels (add_scheduling_gate claimed) profile) profile
              overrides)
      ]

-- admission.Request and admission.Response; `Raw` is the JSON text of an object
pub record Request (Raw : Type 0) : Type 0 where
  pub namespace : String
  pub object : Raw

pub data Response (Raw : Type 0) : Type 0 where
  errored : ℕ → Error → Response Raw
  allowed : String → Response Raw
  denied : Message → Response Raw
  patch_response : Raw → Raw → Response Raw
  panicked : Response Raw

abbrev pub about_profile : String → String → Message
about_profile text profile_name = sprintf text (Arg.q profile_name ∷ [])

abbrev not_found_error : {Raw : Type 0} → Request Raw → String → Error → Error
not_found_error req profile_name e =
    wrapped "WorkloadProfile %q not found in namespace %q: %w"
      (Arg.q profile_name ∷ Arg.q req.namespace ∷ []) e

-- The decoder, the JSON encoder and the client's read of a profile are given.
module _ {Q Raw : Type 0} (decode : Request Raw → Result (Pod Q)) (marshal : Pod Q → Result Raw)
    (get_profile : NamespacedName → Fetch (WorkloadProfile Q)) where
  -- json.Marshal and the response, over the mutated pod
  respond : Request Raw → Option (Pod Q) → Response Raw
  respond req none = panicked
  respond req (some pod) = elim (marshal pod) [
    | ok raw ↦ patch_response req.object raw
    | err e ↦ errored 500 e
  ]

  admit : Request Raw → Pod Q → String → WorkloadProfile Q → WorkloadProfileSpec Q → Response Raw
  admit req pod profile_name profile resolved = elim (check_blocking_conflicts pod resolved) [
    | some reason ↦
        denied (sprintf_text "WorkloadProfile %q conflict: %s" (Arg.q profile_name ∷ []) reason)
    | none ↦
        if not (is_empty resolved.device_claims)
          && not (is_condition_true profile.status.conditions condition_valid)
        then denied (
            about_profile
              "WorkloadProfile %q is not yet ready — the profile controller has not finished creating ResourceClaimTemplates. Retry in a few seconds."
              profile_name)
        else respond req (mutate pod profile resolved)
  ]

  with_profile : Request Raw → Pod Q → String → Fetch (WorkloadProfile Q) → Response Raw
  with_profile req pod profile_name (found profile) = elim (profile.status.resolved_spec) [
    | none ↦ denied (
        about_profile
          "WorkloadProfile %q has not been reconciled yet — status.resolvedSpec is empty. Retry in a few seconds."
          profile_name)
    | some resolved ↦ admit req pod profile_name profile resolved
  ]
  with_profile req pod profile_name (not_found e) = errored 500 (not_found_error req profile_name e)
  with_profile req pod profile_name (failed e) = errored 500 (not_found_error req profile_name e)

  with_pod : Request Raw → Pod Q → Response Raw
  with_pod req pod =
      if is_kueue_managed pod
      then allowed "pod is Kueue-managed — WTO defers to Kueue"
      else elim (lookup profile_annotation pod.annotations) [
        | none ↦ allowed "no profile annotation"
        | some profile_name ↦
            with_profile req pod profile_name
              (get_profile (record { namespace = req.namespace; name = profile_name }))
      ]

  -- Handle
  unfoldable pub handle : Request Raw → Response Raw
  unfolding with_pod with_profile admit respond
  handle req = elim (decode req) [ ok pod ↦ with_pod req pod | err e ↦ errored 400 e ]
