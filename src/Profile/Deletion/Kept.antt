-- ===== src/Profile/Deletion/Kept.antt =====
-- Which writes handleDeletion makes.
use wto.Common.{Bool, true, false, List, [], ◌∷◌, if◌then◌else◌}
use wto.Api.{Result, ok, err, done, Pod, WorkloadProfile}
use wto.Client.{Recorder, ProfileClient}
use wto.Profile.Resolve.Generations.{IsKept}
use wto.Profile.Deletion.{profile_finalizer, removed, unless_gated, with_pods, handle_deletion}

module _ {Q W : Type 0} (client : ProfileClient Q W) (recorder : Recorder W) (P : W → Type 0)
    (kept : IsKept client recorder P) where
  removed_keeps : (r : Result (WorkloadProfile Q) × W) → P r.1 → P (removed client recorder r).1
  unfolding removed
  removed_keeps (err e, w) h = h
  removed_keeps (ok profile, w) h = h

  unless_gated_keeps :
      (profile : WorkloadProfile Q) (pods : List (Pod Q)) (w : W)
      → P w
      → P (unless_gated client recorder profile pods w).1
  unfolding unless_gated
  unless_gated_keeps profile [] w h = removed_keeps _ (kept.update_keeps _ w h)
  unless_gated_keeps profile (pod ∷ pods) w h = kept.event_keeps _ _ _ _ w h

  with_pods_keeps :
      (profile : WorkloadProfile Q) (listed : Result (List (Pod Q))) (w : W)
      → P w
      → P (with_pods client recorder profile listed w).1
  unfolding with_pods
  with_pods_keeps profile (err e) w h = h
  with_pods_keeps profile (ok pods) w h = unless_gated_keeps profile _ w h

  pub handle_deletion_keeps :
      (profile : WorkloadProfile Q) (w : W) → P w → P (handle_deletion client recorder profile w).1
  unfolding handle_deletion
  handle_deletion_keeps profile w h =
      by_finalizer (client.contains_finalizer profile.finalizers profile_finalizer)
    where
      by_finalizer :
          (b : Bool)
          → P
              (if b
                then with_pods client recorder profile (client.list_pods profile.namespace w) w
                else (ok done, w)).1
      by_finalizer true = with_pods_keeps profile (client.list_pods profile.namespace w) w h
      by_finalizer false = h
