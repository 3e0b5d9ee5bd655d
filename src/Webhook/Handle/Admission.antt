-- ===== src/Webhook/Handle/Admission.antt =====
-- What Handle answers, and when.
use wto.Common.{
  String, ◌≡◌, refl, ◌↔◌, ◌≢◌, ◌⊎◌, inl, inr, true, false, Option, none, some, [], arith,
  Option-cases, Bool-cases,
}
use wto.Common.Map.{lookup}
use wto.Api.{
  Result, ok, err, Fetch, found, not_found, failed, NamespacedName, Pod, condition_valid,
  WorkloadProfileSpec, WorkloadProfile,
}
use wto.Webhook.Names.{profile_annotation}
use wto.Webhook.Handle.{
  is_condition_true, is_kueue_managed, check_blocking_conflicts, mutate, Request, allowed,
  patch_response, respond, admit, with_profile, with_pod, handle,
}

module _ {Q Raw : Type 0} (decode : Request Raw → Result (Pod Q)) (marshal : Pod Q → Result Raw)
    (get_profile : NamespacedName → Fetch (WorkloadProfile Q)) where
  -- All that has to hold for a request to be answered by a patch, and what the patch is.
  pub record IsPatched (req : Request Raw) (old new : Raw) : Type 0 where
    pub pod : Pod Q
    pub decoded : decode req ≡ ok pod
    pub not_kueue : is_kueue_managed pod ≡ false
    pub profile_name : String
    pub annotated : lookup profile_annotation pod.annotations ≡ some profile_name
    pub profile : WorkloadProfile Q
    pub fetched :
        get_profile (record { namespace = req.namespace; name = profile_name }) ≡ found profile
    pub resolved : WorkloadProfileSpec Q
    pub reconciled : profile.status.resolved_spec ≡ some resolved
    pub no_conflict : check_blocking_conflicts pod resolved ≡ none
    pub ready :
        (resolved.device_claims ≡ [])
        ⊎ (is_condition_true profile.status.conditions condition_valid ≡ true)
    pub mutated : Pod Q
    pub mutation : mutate pod profile resolved ≡ some mutated
    pub marshaled : marshal mutated ≡ ok new
    pub original : req.object ≡ old

  respond-eq-patch :
      (req : Request Raw) (o : Option (Pod Q)) (old new : Raw)
      → respond decode marshal get_profile req o ≡ patch_response old new
      → (pod : Pod Q) × (o ≡ some pod) × (marshal pod ≡ ok new) × (req.object ≡ old)
  unfolding respond
  respond-eq-patch req none old new h = cc
  respond-eq-patch req (some pod) old new h = (pod, refl, ground arith, ground arith)

  admit-eq-patch :
      (req : Request Raw) (pod : Pod Q) (name : String) (profile : WorkloadProfile Q)
      (resolved : WorkloadProfileSpec Q) (old new : Raw)
      → admit decode marshal get_profile req pod name profile resolved ≡ patch_response old new
      → (check_blocking_conflicts pod resolved ≡ none)
        × ((resolved.device_claims ≡ [])
            ⊎ (is_condition_true profile.status.conditions condition_valid ≡ true))
        × (respond decode marshal get_profile req (mutate pod profile resolved)
            ≡ patch_response old new)
  unfolding admit
  admit-eq-patch req pod name profile resolved old new h = ground arith

  with_profile-eq-patch :
      (req : Request Raw) (pod : Pod Q) (name : String) (got : Fetch (WorkloadProfile Q))
      (old new : Raw)
      → with_profile decode marshal get_profile req pod name got ≡ patch_response old new
      → (profile : WorkloadProfile Q) × (resolved : WorkloadProfileSpec Q) × (got ≡ found profile)
        × (profile.status.resolved_spec ≡ some resolved)
        × (admit decode marshal get_profile req pod name profile resolved ≡ patch_response old new)
  unfolding with_profile
  with_profile-eq-patch req pod name (not_found e) old new h = cc
  with_profile-eq-patch req pod name (failed e) old new h = cc
  with_profile-eq-patch req pod name (found profile) old new h =
      elim (Option-cases profile.status.resolved_spec) [
        | inl missing ↦ absurd (ground (arith, missing))
        | inr (resolved, there) ↦ (profile, resolved, refl, there, ground (arith, there))
      ]

  with_pod-eq-patch :
      (req : Request Raw) (pod : Pod Q) (old new : Raw)
      → with_pod decode marshal get_profile req pod ≡ patch_response old new
      → (name : String) × (is_kueue_managed pod ≡ false)
        × (lookup profile_annotation pod.annotations ≡ some name)
        × (with_profile decode marshal get_profile req pod name
              (get_profile (record { namespace = req.namespace; name = name }))
            ≡ patch_response old new)
  unfolding with_pod
  with_pod-eq-patch req pod old new h =
      elim (Option-cases (lookup profile_annotation pod.annotations)) [
        | inl missing ↦ absurd (ground (arith, missing))
        | inr (name, there) ↦ (name, ground (arith, there), there, ground (arith, there))
      ]

  with_pod_sound :
      (req : Request Raw) (pod : Pod Q) (old new : Raw)
      → decode req ≡ ok pod
      → with_pod decode marshal get_profile req pod ≡ patch_response old new
      → IsPatched req old new
  with_pod_sound req pod old new decoded h =
      let (name, not_kueue, annotated, h') = with_pod-eq-patch req pod old new h in
      let (profile, resolved, fetched, reconciled, h'') =
        with_profile-eq-patch req pod name _ old new h' in
      let (no_conflict, ready, h''') = admit-eq-patch req pod name profile resolved old new h'' in
      let (mutated, mutation, marshaled, original) =
        respond-eq-patch req (mutate pod profile resolved) old new h''' in
      record {
        pod = pod;
        decoded = decoded;
        not_kueue = not_kueue;
        profile_name = name;
        annotated = annotated;
        profile = profile;
        fetched = fetched;
        resolved = resolved;
        reconciled = reconciled;
        no_conflict = no_conflict;
        ready = ready;
        mutated = mutated;
        mutation = mutation;
        marshaled = marshaled;
        original = original;
      }

  handle_sound :
      (req : Request Raw) (old new : Raw) (r : Result (Pod Q))
      → decode req ≡ r
      → handle decode marshal get_profile req ≡ patch_response old new
      → IsPatched req old new
  unfolding handle
  handle_sound req old new (ok pod) decoded h =
      with_pod_sound req pod old new decoded (ground (arith, decoded))
  handle_sound req old new (err e) decoded h = absurd (ground (arith, decoded))

  handle_complete :
      (req : Request Raw) (old new : Raw)
      → IsPatched req old new
      → handle decode marshal get_profile req ≡ patch_response old new
  unfolding handle
  handle_complete req old new p = ground (
    arith, p.decoded, p.not_kueue, p.annotated, p.fetched, p.reconciled, p.no_conflict, p.ready,
    p.mutation, p.marshaled, p.original,
  )

  -- A request is answered by a patch exactly if all of this holds: the object decodes to a pod
  -- that is not Kueue's, its annotation names a profile of the request's namespace that has been
  -- reconciled, no conflict blocks it, the profile has no device claims or its condition Valid is
  -- true, and the mutation ends without a panic and is encoded. The patch leads from the request's
  -- object to the encoded mutated pod.
  pub handle-eq-patch_iff :
      (req : Request Raw) (old new : Raw)
      → (handle decode marshal get_profile req ≡ patch_response old new) ↔ IsPatched req old new
  handle-eq-patch_iff req old new =
      (λ h. handle_sound req old new (decode req) refl h, handle_complete req old new)

  with_profile-ne-allowed :
      (req : Request Raw) (pod : Pod Q) (name : String) (got : Fetch (WorkloadProfile Q))
      (text : String)
      → with_profile decode marshal get_profile req pod name got ≢ allowed text
  unfolding with_profile admit respond
  with_profile-ne-allowed req pod name (not_found e) text = cc
  with_profile-ne-allowed req pod name (failed e) text = cc
  with_profile-ne-allowed req pod name (found profile) text = λ h. ground arith

  allowed_sound :
      (req : Request Raw) (pod : Pod Q) (text : String)
      → with_pod decode marshal get_profile req pod ≡ allowed text
      → (is_kueue_managed pod ≡ true) ⊎ (lookup profile_annotation pod.annotations ≡ none)
  unfolding with_pod
  allowed_sound req pod text h = elim (Option-cases (lookup profile_annotation pod.annotations)) [
    | inl absent ↦ inr absent
    | inr (name, there) ↦ elim (Bool-cases (is_kueue_managed pod)) [
      | inl kueue ↦ inl kueue
      | inr other ↦
          absurd (with_profile-ne-allowed req pod name _ text (rw (there, other, with_pod) at h))
    ]
  ]

  allowed_complete :
      (req : Request Raw) (pod : Pod Q)
      → (is_kueue_managed pod ≡ true) ⊎ (lookup profile_annotation pod.annotations ≡ none)
      → (text : String) × (with_pod decode marshal get_profile req pod ≡ allowed text)
  unfolding with_pod
  allowed_complete req pod h = elim (Bool-cases (is_kueue_managed pod)) [
    | inl kueue ↦ ("pod is Kueue-managed — WTO defers to Kueue", rw kueue)
    | inr other ↦ ("no profile annotation", ground (arith, other))
  ]

  -- A pod that decodes is let through as it is exactly if it is Kueue's or has no annotation that
  -- names a profile.
  pub handle-allowed_iff :
      (req : Request Raw) (pod : Pod Q)
      → decode req ≡ ok pod
      → ((text : String) × (handle decode marshal get_profile req ≡ allowed text))
        ↔ ((is_kueue_managed pod ≡ true) ⊎ (lookup profile_annotation pod.annotations ≡ none))
  unfolding handle
  handle-allowed_iff req pod decoded =
      rw (decoded, handle) (λ (text, h). allowed_sound req pod text h, allowed_complete req pod)
