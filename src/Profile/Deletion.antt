-- ===== src/Profile/Deletion.antt =====
-- internal/controller/profile_controller.go: handleDeletion.
pub mod Safety
pub mod Kept
use wto.Common.{
  ℕ, String, Bool, true, false, ◌&&◌, Option, none, some, List, [], ◌∷◌, map, length, keep_if,
  if◌then◌else◌,
}
use wto.Common.Int.{pos}
use wto.Api.{
  Arg, Message, sprintf, Error, wrapped, Result, ok, err, NamespacedName, ReconcileResult, done,
  requeue_after, Pod, WorkloadProfile,
}
use wto.Client.{EventType, warning, Recorder, ProfileClient}
use wto.Placement.Gates.{has_scheduling_gate}
use wto.Profile.Nodes.{applies_profile}

abbrev pub profile_finalizer : String
profile_finalizer = "workload-template.io/profile-protection"

-- the loop of findGatedPodsForProfile, over the pods of the namespace
unfoldable pub gated_pods : {Q : Type 0} → String → List (Pod Q) → List (Pod Q)
gated_pods name = keep_if (λ pod. applies_profile name pod && has_scheduling_gate pod)

abbrev pub profile_key : {Q : Type 0} → WorkloadProfile Q → NamespacedName
profile_key profile = record { namespace = profile.namespace; name = profile.name }

module _ {Q W : Type 0} (client : ProfileClient Q W) (recorder : Recorder W) where
  removed : Result (WorkloadProfile Q) × W → Result ReconcileResult × W
  removed (err e, w) = (err (wrapped "remove finalizer: %w" [] e), w)
  removed (ok profile, w) = (ok done, w)

  -- with the gated pods that were found
  unless_gated : WorkloadProfile Q → List (Pod Q) → W → Result ReconcileResult × W
  unless_gated profile [] w = removed (
      client.update_profile
        (record profile {
          finalizers = client.remove_finalizer profile.finalizers profile_finalizer;
        })
        w)
  unless_gated profile (pod ∷ pods) w = (
    ok (requeue_after 10),
    recorder.event (profile_key profile) warning "DeletionBlocked"
        (sprintf
          "Cannot delete WorkloadProfile: %d gated pod(s) still reference it: %v. Delete the pods or wait for them to be ungated."
          (Arg.d (pos (length (pod ∷ pods))) ∷ Arg.v (map (λ p. p.name) (pod ∷ pods)) ∷ []))
        w,
  )

  with_pods : WorkloadProfile Q → Result (List (Pod Q)) → W → Result ReconcileResult × W
  with_pods profile (err e) w = (err (wrapped "list gated pods: %w" [] e), w)
  with_pods profile (ok pods) w = unless_gated profile (gated_pods profile.name pods) w

  -- handleDeletion
  unfoldable pub handle_deletion : WorkloadProfile Q → W → Result ReconcileResult × W
  unfolding with_pods unless_gated removed
  handle_deletion profile w =
      if client.contains_finalizer profile.finalizers profile_finalizer
      then with_pods profile (client.list_pods profile.namespace w) w
      else (ok done, w)
