-- ===== src/Tests/WebhookTests.antt =====
-- The webhook on a pod with one container and a profile for its index.
use wto.Common.{
  String, ◌≡◌, refl, ◌↔◌, ◌⊎◌, true, not, none, some, [], ◌∷◌, get_elem?, keep_if, any, All,
}
use wto.Common.Int.{ℤ, pos, negsuc}
use wto.Common.Map.{lookup, or_else, insert}
use wto.Common.Text.{show_nat, json_strings}
use wto.Api.{
  Result, ok, Fetch, found, NamespacedName, Container, Pod, ContainerResources, WorkloadProfileSpec,
  WorkloadProfile,
}
use wto.Webhook.Names.{
  claim_template_name, profile_annotation, scheduling_gate, generation_anno, overrides_anno,
  profile_label, template_label,
}
use wto.Webhook.Inject.{resolve_resources, inject_resources, target_index, inject_dra_claims}
use wto.Webhook.Inject.Resources.{inject_resources-lookup}
use wto.Webhook.Inject.Overrides.{pod_clashes, inject_resources_overrides}
use wto.Webhook.Inject.Claims.{claimed, inject_dra_claims_lem, inject_dra_claims_panics}
use wto.Webhook.Handle.{
  Request, patch_response, allowed, is_kueue_managed, check_blocking_conflicts, node_selector_of,
  mutate, handle, add_scheduling_gate, set_cost_labels, set_tracking_annotations,
}
use wto.Webhook.Handle.Conflicts.{Agrees, check_blocking_conflicts-eq-none_iff}
use wto.Webhook.Handle.Admission.{IsPatched, handle-eq-patch_iff, handle-allowed_iff}
use wto.Webhook.Handle.Mutation.{
  is_gate, expected_label, expected_annotation, mutate_gates, mutate_labels_annotations,
}
use wto.Tests.Fixtures.{
  gpu_resources, no_resources, main, gpu_claim, by_index, gpu_spec, gpu_profile, pod,
}

-- The JSON text of a pod is the pod itself.
abbrev decode : Request (Pod ℤ) → Result (Pod ℤ)
decode req = ok req.object

abbrev encode : Pod ℤ → Result (Pod ℤ)
encode p = ok p

abbrev get_profile : NamespacedName → Fetch (WorkloadProfile ℤ)
get_profile key = found gpu_profile

abbrev request : Request (Pod ℤ)
request = record { namespace = "team"; object = pod }

handle-eq-patch_iff_example :
    (handle decode encode get_profile request ≡ patch_response pod pod)
    ↔ IsPatched decode encode get_profile request pod pod
handle-eq-patch_iff_example = handle-eq-patch_iff decode encode get_profile request pod pod

handle-allowed_iff_example :
    ((text : String) × (handle decode encode get_profile request ≡ allowed text))
    ↔ ((is_kueue_managed pod ≡ true) ⊎ (lookup profile_annotation pod.annotations ≡ none))
handle-allowed_iff_example = handle-allowed_iff decode encode get_profile request pod refl

abbrev by_name : ContainerResources ℤ
by_name = record { name = some "main"; index = none; resources = no_resources }

abbrev both_spec : WorkloadProfileSpec ℤ
both_spec = record (gpu_spec) { containers = by_index ∷ by_name ∷ [] }

inject_resources-lookup_example :
    (c' : Container ℤ) × (get_elem? (inject_resources pod gpu_spec).0.containers 0 ≡ some c')
    × ((k : String)
        → lookup k c'.resources.requests
          ≡ or_else (lookup k gpu_resources.requests) (lookup k main.resources.requests))
    × ((k : String)
        → lookup k c'.resources.limits
          ≡ or_else (lookup k gpu_resources.limits) (lookup k main.resources.limits))
    × (c'.name ≡ main.name)
    × (c'.resources.claims ≡ main.resources.claims)
unfolding resolve_resources lookup
inject_resources-lookup_example =
    inject_resources-lookup pod gpu_spec 0 main gpu_resources refl refl (refl, (refl, tt))
      (refl, tt)

abbrev default_spec : WorkloadProfileSpec ℤ
default_spec = record (gpu_spec) {
  containers = [];
  defaults = some (record { resources = gpu_resources });
  device_claims = [];
}

inject_resources_overrides_example :
    (inject_resources pod default_spec).1 ≡ pod_clashes default_spec 0 pod.containers
unfolding resolve_resources lookup
inject_resources_overrides_example =
    inject_resources_overrides pod default_spec (λ name index. ((refl, (refl, tt)), (refl, tt)))

overrides_test : (inject_resources pod gpu_spec).1 ≡ "containers[0].resources.requests.cpu" ∷ []
unfolding inject_resources resolve_resources lookup insert show_nat
overrides_test = refl

inject_dra_claims_lem_example :
    inject_dra_claims pod "gpu" gpu_spec ≡ some (claimed "gpu" gpu_spec.device_claims 0 pod)
unfolding target_index
inject_dra_claims_lem_example = inject_dra_claims_lem pod "gpu" gpu_spec 0 refl

abbrev below_zero : ContainerResources ℤ
below_zero = record (by_index) { index = some (negsuc 0) }

abbrev below_zero_spec : WorkloadProfileSpec ℤ
below_zero_spec = record (gpu_spec) { containers = below_zero ∷ [] }

inject_dra_claims_panics_example : inject_dra_claims pod "gpu" below_zero_spec ≡ none
inject_dra_claims_panics_example =
    inject_dra_claims_panics pod "gpu" below_zero_spec gpu_claim [] [] [] below_zero 0 refl refl tt
      refl

check_blocking_conflicts-eq-none_iff_example : (check_blocking_conflicts pod gpu_spec ≡ none) ↔ (
    ((pod.resource_claims ≡ []) ⊎ (gpu_spec.device_claims ≡ []))
    × All (λ e. Agrees (lookup e.0 pod.node_selector) e.1) (node_selector_of gpu_spec.placement))
check_blocking_conflicts-eq-none_iff_example = check_blocking_conflicts-eq-none_iff pod gpu_spec

-- The pod of the fixtures, as the webhook sends it back.
abbrev admitted : Pod ℤ
admitted = record (pod) {
  labels = ("app", "train") ∷ (profile_label, "gpu") ∷ [];
  annotations =
      (profile_annotation, "gpu")
      ∷ (generation_anno, "7")
      ∷ (overrides_anno, "[\"containers[0].resources.requests.cpu\"]")
      ∷ [];
  containers =
      record (main) {
        resources = record {
          requests = ("cpu", pos 4) ∷ ("disk", pos 2) ∷ ("memory", pos 8) ∷ [];
          limits = ("memory", pos 16) ∷ [];
          claims = "gpu" ∷ [];
        };
      }
      ∷ [];
  resource_claims = record { name = "gpu"; resource_claim_template_name = some "wto-gpu-gpu" } ∷ [];
  scheduling_gates = "example.com/other" ∷ scheduling_gate ∷ [];
}

mutate_test : mutate pod gpu_profile gpu_spec ≡ some admitted
unfolding mutate inject_resources inject_dra_claims resolve_resources lookup insert show_nat
    json_strings claim_template_name add_scheduling_gate set_cost_labels set_tracking_annotations
mutate_test = refl

mutate_gates_example :
    (any is_gate admitted.scheduling_gates ≡ true)
    × (keep_if (λ g. not (is_gate g)) admitted.scheduling_gates
        ≡ keep_if (λ g. not (is_gate g)) pod.scheduling_gates)
mutate_gates_example = mutate_gates pod admitted gpu_profile gpu_spec mutate_test

mutate_labels_annotations_example :
    (lookup template_label admitted.labels ≡ expected_label gpu_profile pod.labels template_label)
    × (lookup template_label admitted.annotations
        ≡ expected_annotation gpu_profile
            (inject_resources pod gpu_spec).1
            pod.annotations
            template_label)
mutate_labels_annotations_example =
    mutate_labels_annotations pod admitted gpu_profile gpu_spec template_label mutate_test
