-- ===== src/Profile/Reconcile/Generations.antt =====
-- What the writes of the profile controller have in common.
use wto.Common.{
  ℕ, String, refl, Bool, true, false, Option, none, some, List, [], ◌∷◌, if◌then◌else◌,
}
use wto.Api.{
  Error, Result, ok, err, Fetch, found, not_found, failed, NamespacedName, DeviceClaim,
  WorkloadProfileSpec, WorkloadProfile,
}
use wto.Quantity.{Quantities}
use wto.Client.{Recorder, ProfileClient}
use wto.Profile.Resolve.{Resolution, refused, waiting, resolved}
use wto.Profile.Resolve.Generations.{IsKept, resolve_spec_keeps}
use wto.Profile.Status.{update_status}
use wto.Profile.Deletion.Kept.{handle_deletion_keeps}
use wto.Profile.Reconcile.{
  ensure_resource_claim_template, wrap_sync, and_then, ensure_all, finished, after_resolve,
  after_finalizer, reconcile_live, reconcile_found, reconcile_fetched, reconcile,
}

module _ {Q W : Type 0} (ops : Quantities Q) (client : ProfileClient Q W) (recorder : Recorder W)
    (P : W → Type 0) (kept : IsKept client recorder P) where
  -- the base of updateStatus' patch has the generations that resolveSpec has set
  update_status_keeps :
      (profile : WorkloadProfile Q) (spec : WorkloadProfileSpec Q) (w : W)
      → P w
      → P (update_status ops client profile spec w).1
  unfolding update_status
  update_status_keeps profile spec w h =
      kept.patch_keeps profile _ w
        (record { template_generation = refl; resolved_generation = refl }) h

  wrap_sync_keeps :
      (name : String) (r : Option Error × W) → P r.1 → P (wrap_sync ops client recorder name r).1
  unfolding wrap_sync
  wrap_sync_keeps name (none, w) h = h
  wrap_sync_keeps name (some e, w) h = h

  and_then_keeps :
      (r : Option Error × W) (next : W → Option Error × W)
      → P r.1
      → ((w : W) → P w → P (next w).1)
      → P (and_then ops client recorder r next).1
  unfolding and_then
  and_then_keeps (some e, w) next h n = h
  and_then_keeps (none, w) next h n = n w h

  ensure_keeps :
      (profile : WorkloadProfile Q) (claim : DeviceClaim) (w : W)
      → P w
      → P (ensure_resource_claim_template ops client recorder profile claim w).1
  unfolding ensure_resource_claim_template
  ensure_keeps profile claim w h = wrap_sync_keeps _ _ (kept.sync_keeps _ _ w h)

  ensure_all_keeps :
      (profile : WorkloadProfile Q) (claims : List DeviceClaim) (w : W)
      → P w
      → P (ensure_all ops client recorder profile claims w).1
  unfolding ensure_all
  ensure_all_keeps profile [] w h = h
  ensure_all_keeps profile (claim ∷ claims) w h =
      and_then_keeps _ _ (ensure_keeps profile claim w h)
        (λ w' h'. ensure_all_keeps profile claims w' h')

  finished_keeps : (r : Option Error × W) → P r.1 → P (finished ops client recorder r).1
  unfolding finished
  finished_keeps (some e, w) h = h
  finished_keeps (none, w) h = h

  after_resolve_keeps : (r : Resolution Q × W) → P r.1 → P (after_resolve ops client recorder r).1
  unfolding after_resolve
  after_resolve_keeps (refused e, w) h = h
  after_resolve_keeps (waiting, w) h = h
  after_resolve_keeps (resolved profile spec, w) h = finished_keeps _ (
      and_then_keeps _ _ (ensure_all_keeps profile spec.device_claims w h)
        (λ w' h'. update_status_keeps profile spec w' h'))

  after_finalizer_keeps :
      (r : Result (WorkloadProfile Q) × W) → P r.1 → P (after_finalizer ops client recorder r).1
  unfolding after_finalizer
  after_finalizer_keeps (err e, w) h = h
  after_finalizer_keeps (ok profile, w) h =
      after_resolve_keeps _ (resolve_spec_keeps client recorder P kept profile w h)

  if_keeps : {A : Type 0} (b : Bool) (x y : A × W) → P x.1 → P y.1 → P (if b then x else y).1
  if_keeps true x y h k = h
  if_keeps false x y h k = k

  reconcile_found_keeps :
      (deleted : Option ℕ) (profile : WorkloadProfile Q) (w : W)
      → P w
      → P (reconcile_found ops client recorder deleted profile w).1
  unfolding reconcile_found reconcile_live
  reconcile_found_keeps none profile w h =
      after_finalizer_keeps _ (if_keeps _ _ _ h (kept.update_keeps _ w h))
  reconcile_found_keeps (some t) profile w h =
      handle_deletion_keeps client recorder P kept profile w h

  reconcile_fetched_keeps :
      (got : Fetch (WorkloadProfile Q)) (w : W)
      → P w
      → P (reconcile_fetched ops client recorder got w).1
  unfolding reconcile_fetched
  reconcile_fetched_keeps (found profile) w h =
      reconcile_found_keeps profile.deletion_timestamp profile w h
  reconcile_fetched_keeps (not_found e) w h = h
  reconcile_fetched_keeps (failed e) w h = h

  -- A property of the cluster that all writes keep, but for status patches whose base and result
  -- differ in the template's or the resolved generation, is kept by Reconcile from any state.
  pub reconcile_keeps_generations :
      (req : NamespacedName) (w : W) → P w → P (reconcile ops client recorder req w).1
  unfolding reconcile
  reconcile_keeps_generations req w h = reconcile_fetched_keeps (client.get_profile req w) w h
