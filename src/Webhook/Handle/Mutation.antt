-- ===== src/Webhook/Handle/Mutation.antt =====
-- The gate, the labels and the annotations of an admitted pod.
use mathlib.Core.Bool.{or-true}
use mathlib.Core.List.{append-nil}
use wto.Common.{
  String, ◌≡◌, ◌≢◌, refl, ◌∙◌, ap, Bool, true, not, Option, none, some, List, [], ◌∷◌, ◌==◌, eq_iff,
  any, map, ◌++◌, keep_if, any-append, keep_if-append, arith, Bool-cases, Option-cases, inl, inr,
  if◌then◌else◌,
}
use wto.Common.Map.{Map, lookup, or_else, lookup-insert}
use wto.Common.Text.{show_nat}
use wto.Api.{Pod, WorkloadProfileSpec, WorkloadProfile}
use wto.Webhook.Names.{
  scheduling_gate, generation_anno, template_gen_anno, overrides_anno, profile_label,
  template_label,
}
use wto.Webhook.Inject.{inject_resources, inject_dra_claims}
use wto.Webhook.Inject.Claims.{claim_ref, inject_dra_claims-resource_claims}
use wto.Webhook.Inject.Frame.{IsFramed, inject_dra_claims-IsFramed}
use wto.Webhook.Handle.{
  add_scheduling_gate, resolved_template_ref, set_cost_labels, set_tracking_annotations, shown,
  marshaled_overrides, insert_some, mutate,
}

abbrev pub is_gate : String → Bool
is_gate gate = gate == scheduling_gate

lookup-insert_some :
    (k j : String) (o : Option String) (m : Map String)
    → lookup j (insert_some k o m) ≡ (if k == j then or_else o (lookup j m) else lookup j m)
lookup-insert_some k j none m = ground arith
lookup-insert_some k j (some v) m = lookup-insert k j v m

template_label-ne-profile_label : ◌≢◌ {A = String} template_label profile_label
template_label-ne-profile_label = ground (arith, eq_iff template_label profile_label)

annotation_keys_ne :
    (◌≢◌ {A = String} overrides_anno template_gen_anno)
    × (◌≢◌ {A = String} overrides_anno generation_anno)
    × (◌≢◌ {A = String} template_gen_anno generation_anno)
annotation_keys_ne = (
  ground (arith, eq_iff overrides_anno template_gen_anno),
  ground (arith, eq_iff overrides_anno generation_anno),
  ground (arith, eq_iff template_gen_anno generation_anno),
)

module _ {Q : Type 0} where
  -- The gate is there afterwards, and the other gates are what they were.
  add_scheduling_gate_lem :
      (pod : Pod Q)
      → (any is_gate (add_scheduling_gate pod).scheduling_gates ≡ true)
        × (keep_if (λ g. not (is_gate g)) (add_scheduling_gate pod).scheduling_gates
            ≡ keep_if (λ g. not (is_gate g)) pod.scheduling_gates)
  unfolding add_scheduling_gate
  add_scheduling_gate_lem pod = elim (Bool-cases (any is_gate pod.scheduling_gates)) [
    | inl there ↦ rw there (there, refl)
    | inr not_there ↦ rw not_there (
      rw (any-append is_gate pod.scheduling_gates (scheduling_gate ∷ []))
          (or-true (any is_gate pod.scheduling_gates)),
      keep_if-append (λ g. not (is_gate g)) pod.scheduling_gates (scheduling_gate ∷ [])
          ∙ unfold keep_if in append-nil _,
    )
  ]

  pub mutate-eq-some :
      (pod pod' : Pod Q) (profile : WorkloadProfile Q) (resolved : WorkloadProfileSpec Q)
      → mutate pod profile resolved ≡ some pod'
      → (claimed : Pod Q) × IsFramed pod claimed
        × (pod'
            ≡ set_tracking_annotations
                (set_cost_labels (add_scheduling_gate claimed) profile)
                profile
                (inject_resources pod resolved).1)
  unfolding mutate
  mutate-eq-some pod pod' profile resolved h =
      elim (Option-cases
        (inject_dra_claims (inject_resources pod resolved).0 profile.name resolved)) [
          | inl panic ↦ absurd (ground (arith, panic))
          | inr (claimed, done) ↦ (
            claimed,
            inject_dra_claims-IsFramed profile.name resolved pod claimed done,
            ground (arith, done),
          )
        ]

  claims_of_mutated :
      (pod pod' : Pod Q) (profile : WorkloadProfile Q) (overrides : List String)
      → pod'
        ≡ set_tracking_annotations
            (set_cost_labels (add_scheduling_gate pod) profile)
            profile
            overrides
      → pod'.resource_claims ≡ pod.resource_claims
  unfolding set_tracking_annotations set_cost_labels add_scheduling_gate
  claims_of_mutated pod pod' profile overrides h = ground arith

  -- An admitted pod references the template of each device claim, after the claims that it had.
  pub mutate-resource_claims :
      (pod pod' : Pod Q) (profile : WorkloadProfile Q) (resolved : WorkloadProfileSpec Q)
      → mutate pod profile resolved ≡ some pod'
      → pod'.resource_claims
        ≡ pod.resource_claims ++ map (claim_ref profile.name) resolved.device_claims
  unfolding mutate
  mutate-resource_claims pod pod' profile resolved h =
      elim (Option-cases
        (inject_dra_claims (inject_resources pod resolved).0 profile.name resolved)) [
          | inl panic ↦ absurd (ground (arith, panic))
          | inr (claimed, done) ↦
              claims_of_mutated claimed pod' profile (inject_resources pod resolved).1
                (ground (arith, done))
              ∙ inject_dra_claims-resource_claims profile.name resolved
                  (inject_resources pod resolved).0 claimed done
              ∙ unfold inject_resources in refl
        ]

  gates_of_mutated :
      (pod : Pod Q) (profile : WorkloadProfile Q) (overrides : List String)
      → (set_tracking_annotations (set_cost_labels pod profile) profile overrides).scheduling_gates
        ≡ pod.scheduling_gates
  unfolding set_tracking_annotations set_cost_labels
  gates_of_mutated pod profile overrides = refl

  -- An admitted pod has the scheduling gate, and its other gates are those of the incoming pod.
  pub mutate_gates :
      (pod pod' : Pod Q) (profile : WorkloadProfile Q) (resolved : WorkloadProfileSpec Q)
      → mutate pod profile resolved ≡ some pod'
      → (any is_gate pod'.scheduling_gates ≡ true)
        × (keep_if (λ g. not (is_gate g)) pod'.scheduling_gates
            ≡ keep_if (λ g. not (is_gate g)) pod.scheduling_gates)
  mutate_gates pod pod' profile resolved h =
      let (claimed, frame, same) = mutate-eq-some pod pod' profile resolved h in
      rw (same, gates_of_mutated, ← frame.scheduling_gates) (add_scheduling_gate_lem claimed)

  -- The labels that an admitted pod is meant to have, from those of the incoming pod.
  abbrev pub expected_label : WorkloadProfile Q → Map String → String → Option String
  expected_label profile labels k =
      if template_label == k
      then or_else profile.spec.template_ref
          (or_else (resolved_template_ref profile.status.resolved_spec) (lookup k labels))
      else if profile_label == k
      then some profile.name
      else lookup k labels

  set_cost_labels_lem :
      (pod : Pod Q) (profile : WorkloadProfile Q) (k : String)
      → lookup k (set_cost_labels pod profile).labels ≡ expected_label profile pod.labels k
  unfolding set_cost_labels
  set_cost_labels_lem pod profile k =
      rw (lookup-insert_some, lookup-insert)
        (ground
          (arith, eq_iff template_label k, eq_iff profile_label k, template_label-ne-profile_label))

  -- The annotations that an admitted pod is meant to have, from those of the incoming pod.
  abbrev pub expected_annotation :
      WorkloadProfile Q → List String → Map String → String → Option String
  expected_annotation profile overrides annotations k =
      if overrides_anno == k
      then or_else (marshaled_overrides overrides) (lookup k annotations)
      else if template_gen_anno == k
      then or_else (shown profile.status.template_generation) (lookup k annotations)
      else if generation_anno == k
      then some (show_nat profile.generation)
      else lookup k annotations

  set_tracking_annotations_lem :
      (pod : Pod Q) (profile : WorkloadProfile Q) (overrides : List String) (k : String)
      → lookup k (set_tracking_annotations pod profile overrides).annotations
        ≡ expected_annotation profile overrides pod.annotations k
  unfolding set_tracking_annotations
  set_tracking_annotations_lem pod profile overrides k =
      rw (lookup-insert_some overrides_anno, lookup-insert_some template_gen_anno, lookup-insert)
        (ground (
          arith,
          eq_iff overrides_anno k,
          eq_iff template_gen_anno k,
          eq_iff generation_anno k,
          annotation_keys_ne.0,
          annotation_keys_ne.1,
          annotation_keys_ne.2,
        ))

  labels_of_gated : (pod : Pod Q) → (add_scheduling_gate pod).labels ≡ pod.labels
  unfolding add_scheduling_gate
  labels_of_gated pod = ground arith

  annotations_of_gated :
      (pod : Pod Q) (profile : WorkloadProfile Q)
      → (set_cost_labels (add_scheduling_gate pod) profile).annotations ≡ pod.annotations
  unfolding add_scheduling_gate set_cost_labels
  annotations_of_gated pod profile = ground arith

  maps_of_mutated :
      (pod : Pod Q) (profile : WorkloadProfile Q) (overrides : List String) (k : String)
      → ((lookup k
            (set_tracking_annotations
              (set_cost_labels (add_scheduling_gate pod) profile)
              profile
              overrides).labels)
          ≡ expected_label profile pod.labels k)
        × ((lookup k
              (set_tracking_annotations
                (set_cost_labels (add_scheduling_gate pod) profile)
                profile
                overrides).annotations)
            ≡ expected_annotation profile overrides pod.annotations k)
  maps_of_mutated pod profile overrides k = (
    unfold set_tracking_annotations in
        (set_cost_labels_lem (add_scheduling_gate pod) profile k
          ∙ ap (λ m. expected_label profile m k) (labels_of_gated pod)),
    set_tracking_annotations_lem (set_cost_labels (add_scheduling_gate pod) profile) profile
          overrides k
        ∙ ap (λ m. expected_annotation profile overrides m k) (annotations_of_gated pod profile),
  )

  -- The labels and annotations of an admitted pod, at every key: the template's and the profile's
  -- name, the profile's and the template's generation, the overridden resources if there are any,
  -- and what the incoming pod had where none of these is written.
  pub mutate_labels_annotations :
      (pod pod' : Pod Q) (profile : WorkloadProfile Q) (resolved : WorkloadProfileSpec Q)
      (k : String)
      → mutate pod profile resolved ≡ some pod'
      → (lookup k pod'.labels ≡ expected_label profile pod.labels k)
        × (lookup k pod'.annotations
            ≡ expected_annotation profile (inject_resources pod resolved).1 pod.annotations k)
  mutate_labels_annotations pod pod' profile resolved k h =
      let (claimed, frame, same) = mutate-eq-some pod pod' profile resolved h in
      let (labels, annotations) =
        maps_of_mutated claimed profile (inject_resources pod resolved).1 k in
      (
        ap (λ (p : Pod Q). lookup k p.labels) same
            ∙ labels
            ∙ ap (λ m. expected_label profile m k) frame.labels,
        ap (λ (p : Pod Q). lookup k p.annotations) same
            ∙ annotations
            ∙ ap (λ m. expected_annotation profile (inject_resources pod resolved).1 m k)
                frame.annotations,
      )
