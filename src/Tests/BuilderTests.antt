-- ===== src/Tests/BuilderTests.antt =====
-- internal/webhook/pod_webhook_test.go: the cases of TestHandle, with the builders of the tests.
use wto.Common.{String, ◌≡◌, refl, Option, none, some, [], ◌∷◌}
use wto.Common.Int.{ℤ, pos}
use wto.Common.Map.{Map, insert, lookup}
use wto.Api.{
  Arg, sprintf, sprintf_text, api, wrapped, ok, Fetch, found, not_found, NamespacedName,
  condition_true, Pod, WorkloadProfile,
}
use wto.Webhook.Handle.{
  Response, allowed, denied, errored, is_kueue_managed, is_condition_true, check_blocking_conflicts,
  handle,
}
use wto.Testutil.Pods.{
  new_pod, with_profile_annotation, with_label, with_node_selector, with_resource_claims,
  new_admission_request,
}
use wto.Testutil.Profiles.{
  new_profile, with_defaults, with_device_claim, with_node_placement, with_queue_placement,
  with_valid_condition, resolve,
}

-- A cluster with at most one profile.
abbrev seeded : Option (WorkloadProfile ℤ) → NamespacedName → Fetch (WorkloadProfile ℤ)
seeded none key = not_found (api "not found")
seeded (some profile) key = found profile

-- Handle on a request for the pod.
abbrev answer : Option (WorkloadProfile ℤ) → Pod ℤ → Response (Pod ℤ)
answer profile pod =
    handle (λ req. ok req.object) (λ p. ok p) (seeded profile) (new_admission_request (λ p. p) pod)

abbrev test_pod : String → Pod ℤ
test_pod profile_name = with_profile_annotation profile_name (new_pod "test" "default")

abbrev small : Map ℤ
small = ("cpu", pos 100) ∷ ("memory", pos 128) ∷ []

no_annotation_test : answer none (new_pod "test" "default") ≡ allowed "no profile annotation"
unfolding handle new_pod new_admission_request is_kueue_managed lookup
no_annotation_test = refl

not_found_test :
    answer none (test_pod "missing")
    ≡ errored 500 (
        wrapped "WorkloadProfile %q not found in namespace %q: %w"
          (Arg.q "missing" ∷ Arg.q "default" ∷ [])
          (api "not found"))
unfolding handle new_pod with_profile_annotation new_admission_request is_kueue_managed lookup
    insert
not_found_test = refl

not_reconciled_test :
    answer (some (with_defaults small small (new_profile "empty" "default"))) (test_pod "empty")
    ≡ denied (
        sprintf
          "WorkloadProfile %q has not been reconciled yet — status.resolvedSpec is empty. Retry in a few seconds."
          (Arg.q "empty" ∷ []))
unfolding handle new_pod with_profile_annotation new_admission_request is_kueue_managed lookup
    insert new_profile with_defaults
not_reconciled_test = refl

abbrev gpu_profile : WorkloadProfile ℤ
gpu_profile =
    resolve (with_device_claim "gpu" "gpu.nvidia.com" (pos 1) (new_profile "gpu" "default"))

not_ready_test :
    answer (some gpu_profile) (test_pod "gpu")
    ≡ denied (
        sprintf
          "WorkloadProfile %q is not yet ready — the profile controller has not finished creating ResourceClaimTemplates. Retry in a few seconds."
          (Arg.q "gpu" ∷ []))
unfolding handle new_pod with_profile_annotation new_admission_request is_kueue_managed lookup
    insert new_profile with_device_claim resolve is_condition_true check_blocking_conflicts
not_ready_test = refl

existing_claims_test :
    answer (some (with_valid_condition 5 condition_true gpu_profile)) (
      with_resource_claims
        (record { name = "existing"; resource_claim_template_name = none } ∷ [])
        (test_pod "gpu"))
    ≡ denied (
        sprintf_text "WorkloadProfile %q conflict: %s" (Arg.q "gpu" ∷ []) (
          sprintf
            "pod already has resourceClaims and profile has deviceClaims — dual device allocation risk. Remove existing resourceClaims or use a profile without deviceClaims."
            []))
unfolding handle new_pod with_profile_annotation new_admission_request is_kueue_managed lookup
    insert with_resource_claims new_profile with_device_claim with_valid_condition resolve
    check_blocking_conflicts
existing_claims_test = refl

kueue_test :
    answer
      (some (resolve (with_queue_placement "queue-b" none (new_profile "queued" "default"))))
      (with_label "kueue.x-k8s.io/queue-name" "queue-a" (test_pod "queued"))
    ≡ allowed "pod is Kueue-managed — WTO defers to Kueue"
unfolding handle new_pod with_profile_annotation new_admission_request is_kueue_managed lookup
    insert with_label
kueue_test = refl

node_selector_test :
    answer
      (some
        (resolve (with_node_placement (("gpu", "true") ∷ []) [] (new_profile "node" "default"))))
      (with_node_selector "gpu" "false" (test_pod "node"))
    ≡ denied (
        sprintf_text "WorkloadProfile %q conflict: %s" (Arg.q "node" ∷ []) (
          sprintf
            "nodeSelector key %q: pod has %q but profile has %q — unsatisfiable constraint. Remove the pod's nodeSelector or use a compatible profile."
            (Arg.q "gpu" ∷ Arg.q "false" ∷ Arg.q "true" ∷ [])))
unfolding handle new_pod with_profile_annotation new_admission_request is_kueue_managed lookup
    insert with_node_selector new_profile with_node_placement resolve check_blocking_conflicts
node_selector_test = refl
