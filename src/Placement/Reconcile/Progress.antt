-- ===== src/Placement/Reconcile/Progress.antt =====
-- A pod is let go when there is room.
use wto.Common.{String, ◌≡◌, refl, ◌∙◌, ap, true, none, some, [], ◌∷◌, inl}
use wto.Common.Map.{lookup}
use wto.Api.{
  sprintf, Arg, Result, ok, found, NamespacedName, ReconcileResult, done, Pod, WorkloadProfile,
}
use wto.Webhook.Names.{profile_annotation}
use wto.Quantity.{Quantities}
use wto.Client.{normal, Recorder, PlacementClient}
use wto.Client.Server.{IsPodServer}
use wto.Placement.Quota.{check_quota}
use wto.Placement.Gates.{has_scheduling_gate, remove_scheduling_gate}
use wto.Placement.Gates.Laws.{has-remove_scheduling_gate}
use wto.Placement.Reconcile.{
  placement_of, apply_placement, pod_key, finish_patch, place, place_within_quota, with_profile,
  reconcile_fetched, reconcile,
}
use wto.Placement.Reconcile.Safety.{with_pod-gated, reconcile_unmanaged}

module _ {Q : Type 0} where
  -- The pod as it is placed by a profile.
  abbrev pub placed : Pod Q → WorkloadProfile Q → Pod Q
  placed pod profile = remove_scheduling_gate (apply_placement pod (placement_of profile))

module _ {Q W : Type 0} (ops : Quantities Q) (client : PlacementClient Q W)
    (recorder : Recorder W) where
  place_done :
      (pod : Pod Q) (name : String) (profile : WorkloadProfile Q) (w w' : W)
      → client.patch_pod pod (placed pod profile) w ≡ (none, w')
      → place ops client recorder pod name profile w ≡ (
        ok done,
        recorder.event
            (pod_key pod)
            normal
            "Ungated"
            (sprintf "WorkloadProfile %q applied: placement set, scheduling gate removed"
              (Arg.q name ∷ []))
            w',
      )
  unfolding place finish_patch
  place_done pod name profile w w' patched = rw (patched, finish_patch) refl

  reconcile_done :
      (req : NamespacedName) (w w' : W) (pod : Pod Q) (name : String) (profile : WorkloadProfile Q)
      → client.get_pod req w ≡ found pod
      → has_scheduling_gate pod ≡ true
      → lookup profile_annotation pod.annotations ≡ some name
      → client.get_profile (record { namespace = pod.namespace; name = name }) w ≡ found profile
      → check_quota ops (client.list_quotas pod.namespace w) profile ≡ none
      → client.patch_pod pod (placed pod profile) w ≡ (none, w')
      → reconcile ops client recorder req w ≡ (
        ok done,
        recorder.event
            (pod_key pod)
            normal
            "Ungated"
            (sprintf "WorkloadProfile %q applied: placement set, scheduling gate removed"
              (Arg.q name ∷ []))
            w',
      )
  unfolding reconcile with_profile place_within_quota
  reconcile_done req w w' pod name profile fetched gated annotated got room patched =
      rw (fetched, reconcile_fetched)
        (with_pod-gated ops client recorder pod name w gated annotated
          ∙ rw (got, with_profile)
              (rw (room, place_within_quota) (place_done pod name profile w w' patched)))

  -- A gated pod that names a profile is let go by one reconcile if the profile is there and passes
  -- the quota check and the patch is accepted, on a server that gives back what was patched: the
  -- reconcile ends well, the pod is read with the placement and without the gate, and another
  -- reconcile changes nothing.
  pub reconcile_places :
      (server : IsPodServer client recorder) (req : NamespacedName) (w w' : W) (pod : Pod Q)
      (name : String) (profile : WorkloadProfile Q)
      → client.get_pod req w ≡ found pod
      → has_scheduling_gate pod ≡ true
      → lookup profile_annotation pod.annotations ≡ some name
      → client.get_profile (record { namespace = pod.namespace; name = name }) w ≡ found profile
      → check_quota ops (client.list_quotas pod.namespace w) profile ≡ none
      → client.patch_pod pod (placed pod profile) w ≡ (none, w')
      → ((reconcile ops client recorder req w).0 ≡ ok done)
        × (client.get_pod req (reconcile ops client recorder req w).1 ≡ found (placed pod profile))
        × (reconcile ops client recorder req (reconcile ops client recorder req w).1
            ≡ (ok done, (reconcile ops client recorder req w).1))
  reconcile_places server req w w' pod name profile fetched gated annotated got room patched =
      let step =
        reconcile_done req w w' pod name profile fetched gated annotated got room patched in
      let after =
        ap (λ (r : Result ReconcileResult × W). client.get_pod req r.1) step
        ∙ server.recorded req _ _ _ _ w'
        ∙ server.patched req pod _ w w' fetched patched in
      (
        ap (λ (r : Result ReconcileResult × W). r.0) step,
        after,
        reconcile_unmanaged ops client recorder req _ (placed pod profile) after
            (inl (has-remove_scheduling_gate (apply_placement pod (placement_of profile)))),
      )
