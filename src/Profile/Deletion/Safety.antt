-- ===== src/Profile/Deletion/Safety.antt =====
-- When a profile that is being deleted is let go.
use wto.Common.{
  String, ◌≡◌, refl, ◌≢◌, ◌↔◌, ◌⊎◌, Bool, true, false, ◌&&◌, List, [], ◌∷◌, keep_if, All, arith,
  inl, inr,
}
use wto.Api.{
  Message, Result, ok, err, NamespacedName, ReconcileResult, done, requeue_after, Pod,
  WorkloadProfile,
}
use wto.Client.{EventType, Recorder, ProfileClient}
use wto.Placement.Gates.{has_scheduling_gate}
use wto.Profile.Nodes.{applies_profile}
use wto.Profile.Deletion.{
  profile_finalizer, gated_pods, unless_gated, with_pods, removed, handle_deletion,
}

keep_if-eq-nil_iff {ℓ} :
    {A : Type ℓ} (p : A → Bool) (xs : List A) → (keep_if p xs ≡ []) ↔ All (λ x. p x ≡ false) xs
unfolding keep_if
keep_if-eq-nil_iff p [] = (λ _. tt, λ _. refl)
keep_if-eq-nil_iff p (x ∷ xs) = ground (arith, keep_if-eq-nil_iff p xs)

module _ {Q W : Type 0} (client : ProfileClient Q W) (recorder : Recorder W) where
  -- No pod of the namespace names the profile and waits at the gate.
  abbrev pub NoGatedPod : WorkloadProfile Q → List (Pod Q) → Type 0
  NoGatedPod profile pods =
      All (λ pod. (applies_profile profile.name pod && has_scheduling_gate pod) ≡ false) pods

  -- The profile without its finalizer, as it is sent to the server.
  abbrev pub released : WorkloadProfile Q → WorkloadProfile Q
  released profile = record profile {
    finalizers = client.remove_finalizer profile.finalizers profile_finalizer;
  }

  -- Nothing but an event.
  abbrev pub Blocked : W → Result ReconcileResult × W → Type 0
  Blocked w out =
      (out.0 ≡ ok (requeue_after 10))
      × ((key : NamespacedName) × (kind : EventType) × (reason : String) × (text : Message) × (out.1
            ≡ recorder.event key kind reason text w))

  -- The finalizer is taken off by one update, and the result is that of the update.
  abbrev pub Released : WorkloadProfile Q → W → Result ReconcileResult × W → Type 0
  Released profile w out =
      (out.1 ≡ (client.update_profile (released profile) w).1)
      × ((out.0 ≡ ok done)
          ↔ ((p : WorkloadProfile Q) × ((client.update_profile (released profile) w).0 ≡ ok p)))

  removed_lem :
      (r : Result (WorkloadProfile Q) × W)
      → ((removed client recorder r).1 ≡ r.1)
        × (((removed client recorder r).0 ≡ ok done) ↔ ((p : WorkloadProfile Q) × (r.0 ≡ ok p)))
  unfolding removed
  removed_lem (err e, w) = (refl, (λ h. cc, λ (p, h). cc))
  removed_lem (ok p, w) = (refl, (λ h. (p, refl), λ _. refl))

  unless_gated_cases :
      (profile : WorkloadProfile Q) (gated : List (Pod Q)) (w : W)
      → ((gated ≡ []) × Released profile w (unless_gated client recorder profile gated w))
        ⊎ ((gated ≢ []) × Blocked w (unless_gated client recorder profile gated w))
  unfolding unless_gated
  unless_gated_cases profile [] w =
      inl (refl, removed_lem (client.update_profile (released profile) w))
  unless_gated_cases profile (pod ∷ pods) w = inr (λ e. cc, (refl, (_, _, _, _, refl)))

  -- A profile that is being deleted and has its finalizer, where the pods of its namespace are
  -- listed, keeps the finalizer while one of these pods names it and waits at the gate: then the
  -- only effect is an event, and the reconcile is asked for again. It loses the finalizer, by one
  -- update, exactly if there is no such pod.
  pub handle_deletion_cases :
      (profile : WorkloadProfile Q) (pods : List (Pod Q)) (w : W)
      → client.contains_finalizer profile.finalizers profile_finalizer ≡ true
      → client.list_pods profile.namespace w ≡ ok pods
      → (NoGatedPod profile pods × Released profile w (handle_deletion client recorder profile w))
        ⊎ (¬ NoGatedPod profile pods × Blocked w (handle_deletion client recorder profile w))
  unfolding handle_deletion with_pods gated_pods
  handle_deletion_cases profile pods w held listed =
      rw (held, handle_deletion)
        (rw (listed, with_pods)
          (by_pods (unless_gated_cases profile (gated_pods profile.name pods) w)))
    where
      none_iff : (gated_pods profile.name pods ≡ []) ↔ NoGatedPod profile pods
      none_iff = keep_if-eq-nil_iff _ pods

      by_pods :
          {out : Result ReconcileResult × W}
          → ((gated_pods profile.name pods ≡ []) × Released profile w out)
            ⊎ ((gated_pods profile.name pods ≢ []) × Blocked w out)
          → (NoGatedPod profile pods × Released profile w out)
            ⊎ (¬ NoGatedPod profile pods × Blocked w out)
      by_pods (inl (empty, out)) = inl (none_iff.0 empty, out)
      by_pods (inr (some_pod, out)) = inr (λ h. some_pod (none_iff.1 h), out)
