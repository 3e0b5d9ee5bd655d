-- ===== src/Placement/Reconcile/Safety.antt =====
-- When Reconcile writes a pod, what it writes, and what its result says.
use wto.Common.{
  ℕ, String, ◌≡◌, refl, ◌↔◌, ◌⊎◌, ◌∙◌, ap, true, false, Option, none, some, arith, Bool-cases, inl,
  inr,
}
use wto.Common.Map.{lookup}
use wto.Api.{
  Message, Error, Result, ok, Fetch, found, not_found, failed, NamespacedName, ReconcileResult,
  done, requeue_after, Pod, WorkloadProfile,
}
use wto.Webhook.Names.{profile_annotation}
use wto.Quantity.{Quantities}
use wto.Client.{EventType, Recorder, PlacementClient}
use wto.Placement.Quota.{check_quota}
use wto.Placement.Gates.{has_scheduling_gate, remove_scheduling_gate}
use wto.Placement.Gates.Laws.{has-remove_scheduling_gate}
use wto.Placement.Reconcile.{
  event_filter, placement_of, apply_placement, finish_patch, ungate_without_profile, place,
  place_within_quota, with_profile, with_pod, reconcile_fetched, reconcile,
}

module _ {Q W : Type 0} (ops : Quantities Q) (client : PlacementClient Q W)
    (recorder : Recorder W) where
  -- At most an event is recorded.
  abbrev pub OnlyEvent : W → W → Type 0
  OnlyEvent w w' =
      (w' ≡ w)
      ⊎ ((key : NamespacedName) × (kind : EventType) × (reason : String) × (text : Message) × (w'
            ≡ recorder.event key kind reason text w))

  -- Why a pod may lose its gate, and what it becomes.
  abbrev pub MayUngate : W → Pod Q → Pod Q → Fetch (WorkloadProfile Q) → Type 0
  MayUngate w pod new (not_found e) = new ≡ remove_scheduling_gate pod
  MayUngate w pod new (failed e) = ⊥
  MayUngate w pod new (found profile) =
      (check_quota ops (client.list_quotas pod.namespace w) profile ≡ none)
      × (new ≡ remove_scheduling_gate (apply_placement pod (placement_of profile)))

  -- What a reconcile that does not only record an event has done: one patch, from the pod as it
  -- was read, and an event if the patch succeeded.
  pub record IsPatch (w : W) (pod new : Pod Q) (out : Result ReconcileResult × W) : Type 0 where
    pub after : OnlyEvent (client.patch_pod pod new w).1 out.1
    pub succeeded : (out.0 ≡ ok done) ↔ ((client.patch_pod pod new w).0 ≡ none)

  finish_patch-world :
      (context : String) (pod : Pod Q) (kind : EventType) (reason : String) (text : Message)
      (r : Option Error × W)
      → OnlyEvent r.1 (finish_patch ops client recorder context pod kind reason text r).1
  unfolding finish_patch
  finish_patch-world context pod kind reason text (some e, w) = inl refl
  finish_patch-world context pod kind reason text (none, w) = inr (_, _, _, _, refl)

  finish_patch-done :
      (context : String) (pod : Pod Q) (kind : EventType) (reason : String) (text : Message)
      (r : Option Error × W)
      → ((finish_patch ops client recorder context pod kind reason text r).0 ≡ ok done)
        ↔ (r.0 ≡ none)
  unfolding finish_patch
  finish_patch-done context pod kind reason text (some e, w) = (λ h. cc, λ h. cc)
  finish_patch-done context pod kind reason text (none, w) = (λ h. refl, λ h. refl)

  finish_patch-IsPatch :
      (context : String) (pod new : Pod Q) (kind : EventType) (reason : String) (text : Message)
      (w : W)
      → IsPatch w pod new (
          finish_patch ops client recorder context pod kind reason text
            (client.patch_pod pod new w))
  finish_patch-IsPatch context pod new kind reason text w = record {
    after = finish_patch-world context pod kind reason text (client.patch_pod pod new w);
    succeeded = finish_patch-done context pod kind reason text (client.patch_pod pod new w);
  }

  -- The two ways in which a reconcile ends.
  abbrev pub Ends : W → Pod Q → Fetch (WorkloadProfile Q) → Result ReconcileResult × W → Type 0
  Ends w pod got out =
      (OnlyEvent w out.1 × ((n : ℕ) × (out.0 ≡ ok (requeue_after n))))
      ⊎ ((new : Pod Q) × MayUngate w pod new got × IsPatch w pod new out)

  place_within_quota-Ends :
      (pod : Pod Q) (name : String) (profile : WorkloadProfile Q) (reason : Option Message) (w : W)
      → check_quota ops (client.list_quotas pod.namespace w) profile ≡ reason
      → Ends w pod
          (found profile)
          (place_within_quota ops client recorder pod name profile reason w)
  unfolding place_within_quota place
  place_within_quota-Ends pod name profile (some reason) w checked =
      inl (inr (_, _, _, _, refl), (30, refl))
  place_within_quota-Ends pod name profile none w checked =
      inr (_, (checked, refl), finish_patch-IsPatch _ pod _ _ _ _ w)

  with_profile-Ends :
      (pod : Pod Q) (name : String) (got : Fetch (WorkloadProfile Q)) (w : W)
      → Ends w pod got (with_profile ops client recorder pod name got w)
  unfolding with_profile ungate_without_profile
  with_profile-Ends pod name (not_found e) w = inr (_, refl, finish_patch-IsPatch _ pod _ _ _ _ w)
  with_profile-Ends pod name (failed e) w = inl (inr (_, _, _, _, refl), (10, refl))
  with_profile-Ends pod name (found profile) w = place_within_quota-Ends pod name profile _ w refl

  MayUngate-ungated :
      (w : W) (pod new : Pod Q) (got : Fetch (WorkloadProfile Q))
      → MayUngate w pod new got
      → has_scheduling_gate new ≡ false
  MayUngate-ungated w pod new (not_found e) same =
      ap has_scheduling_gate same ∙ has-remove_scheduling_gate pod
  MayUngate-ungated w pod new (failed e) same = elim same [ ]
  MayUngate-ungated w pod new (found profile) (_, same) =
      ap has_scheduling_gate same
      ∙ has-remove_scheduling_gate (apply_placement pod (placement_of profile))

  pub with_pod-gated :
      (pod : Pod Q) (name : String) (w : W)
      → has_scheduling_gate pod ≡ true
      → lookup profile_annotation pod.annotations ≡ some name
      → with_pod ops client recorder pod w
        ≡ with_profile ops client recorder pod name
            (client.get_profile (record { namespace = pod.namespace; name = name }) w)
            w
  unfolding with_pod
  with_pod-gated pod name w gated annotated = rw (gated, annotated, with_pod)

  -- A gated pod that is read and names a profile is either left as it is, with at most an event,
  -- and the reconcile asks to be called again, or one patch is made, to a pod without the gate, and
  -- the reconcile ends well exactly if the patch did. The patch is made only if the profile is
  -- gone, with no placement, or if its quota check passes, with its placement.
  pub reconcile_gated :
      (req : NamespacedName) (w : W) (pod : Pod Q) (name : String)
      → client.get_pod req w ≡ found pod
      → has_scheduling_gate pod ≡ true
      → lookup profile_annotation pod.annotations ≡ some name
      → (OnlyEvent w (reconcile ops client recorder req w).1
          × ((n : ℕ) × ((reconcile ops client recorder req w).0 ≡ ok (requeue_after n))))
        ⊎ ((new : Pod Q) × MayUngate w pod new
              (client.get_profile (record { namespace = pod.namespace; name = name }) w)
            × IsPatch w pod new (reconcile ops client recorder req w)
            × (has_scheduling_gate new ≡ false))
  unfolding reconcile
  reconcile_gated req w pod name fetched gated annotated =
      rw (fetched, reconcile_fetched)
        (rw (with_pod-gated pod name w gated annotated)
          (add_ungated (with_profile-Ends pod name got w)))
    where
      got : Fetch (WorkloadProfile Q)
      got = client.get_profile (record { namespace = pod.namespace; name = name }) w

      add_ungated :
          {out : Result ReconcileResult × W}
          → Ends w pod got out
          → (OnlyEvent w out.1 × ((n : ℕ) × (out.0 ≡ ok (requeue_after n))))
            ⊎ ((new : Pod Q) × MayUngate w pod new got
                × IsPatch w pod new out
                × (has_scheduling_gate new ≡ false))
      add_ungated (inl held) = inl held
      add_ungated (inr (new, may, patch)) =
          inr (new, may, patch, MayUngate-ungated w pod new got may)

  with_pod-OnlyEvent :
      (pod : Pod Q) (w : W)
      → (has_scheduling_gate pod ≡ false) ⊎ (lookup profile_annotation pod.annotations ≡ none)
      → with_pod ops client recorder pod w ≡ (ok done, w)
  unfolding with_pod
  with_pod-OnlyEvent pod w h = elim (Bool-cases (has_scheduling_gate pod)) [
    | inl gated ↦ ground (arith, gated)
    | inr ungated ↦ rw ungated
  ]

  -- A pod that is read, without the gate or without an annotation that names a profile, is left
  -- alone.
  pub reconcile_unmanaged :
      (req : NamespacedName) (w : W) (pod : Pod Q)
      → client.get_pod req w ≡ found pod
      → (has_scheduling_gate pod ≡ false) ⊎ (lookup profile_annotation pod.annotations ≡ none)
      → reconcile ops client recorder req w ≡ (ok done, w)
  unfolding reconcile
  reconcile_unmanaged req w pod fetched unmanaged =
      rw (fetched, reconcile_fetched) (with_pod-OnlyEvent pod w unmanaged)

  -- A pod that is read and that the event filter drops is left alone by a reconcile.
  pub reconcile-event_filter :
      (req : NamespacedName) (w : W) (pod : Pod Q)
      → client.get_pod req w ≡ found pod
      → event_filter (some pod) ≡ false
      → reconcile ops client recorder req w ≡ (ok done, w)
  unfolding event_filter
  reconcile-event_filter req w pod fetched filtered =
      reconcile_unmanaged req w pod fetched (inl filtered)
