-- ===== src/Profile/Reconcile.antt =====
-- internal/controller/profile_controller.go: Reconcile and ensureResourceClaimTemplate.
pub mod Generations
pub mod Claims
pub mod Patched
pub mod Settled
pub mod Stale
use wto.Common.{ℕ, String, Bool, true, false, Option, none, some, List, [], ◌∷◌, if◌then◌else◌}
use wto.Api.{
  Arg, Message, Error, wrapped, Result, ok, err, Fetch, found, not_found, failed, NamespacedName,
  ReconcileResult, done, requeue_after, DeviceClaim, WorkloadProfileSpec, WorkloadProfile,
}
use wto.Webhook.Names.{claim_template_name}
use wto.Quantity.{Quantities}
use wto.Client.{Recorder, ProfileClient, ResourceClaimTemplate}
use wto.Profile.Resolve.{Resolution, refused, waiting, resolved, resolve_spec}
use wto.Profile.Status.{update_status}
use wto.Profile.Deletion.{handle_deletion, profile_finalizer}

module _ {Q W : Type 0} (ops : Quantities Q) (client : ProfileClient Q W)
    (recorder : Recorder W) where
  -- the mutate function that ensureResourceClaimTemplate passes to CreateOrUpdate
  set_claim : DeviceClaim → Result ResourceClaimTemplate → Result ResourceClaimTemplate
  set_claim claim (err e) = err e
  set_claim claim (ok rct) = ok (record rct { requests = claim.request ∷ [] })

  wrap_sync : String → Option Error × W → Option Error × W
  wrap_sync name (none, w) = (none, w)
  wrap_sync name (some e, w) =
      (some (wrapped "create/update ResourceClaimTemplate %s: %w" (Arg.s name ∷ []) e), w)

  -- ensureResourceClaimTemplate
  ensure_resource_claim_template : WorkloadProfile Q → DeviceClaim → W → Option Error × W
  ensure_resource_claim_template profile claim w =
      let template_name = claim_template_name profile.name claim.name in
      wrap_sync template_name (
        client.create_or_update
          (record {
            namespace = profile.namespace;
            name = template_name;
            owner = none;
            requests = [];
          })
          (λ rct. set_claim claim (client.set_controller_reference profile rct)) w)

  -- the loop over the device claims, which ends at the first error
  pub and_then : Option Error × W → (W → Option Error × W) → Option Error × W
  and_then (some e, w) next = (some e, w)
  and_then (none, w) next = next w

  pub ensure_all : WorkloadProfile Q → List DeviceClaim → W → Option Error × W
  ensure_all profile [] w = (none, w)
  ensure_all profile (claim ∷ claims) w =
      and_then (ensure_resource_claim_template profile claim w) (λ w'. ensure_all profile claims w')

  finished : Option Error × W → Result ReconcileResult × W
  finished (some e, w) = (err e, w)
  finished (none, w) = (ok done, w)

  after_resolve : Resolution Q × W → Result ReconcileResult × W
  after_resolve (refused e, w) = (err e, w)
  after_resolve (waiting, w) = (ok (requeue_after 5), w)
  after_resolve (resolved profile spec, w) = finished (
      and_then (ensure_all profile spec.device_claims w)
        (λ w'. update_status ops client profile spec w'))

  after_finalizer : Result (WorkloadProfile Q) × W → Result ReconcileResult × W
  after_finalizer (err e, w) = (err (wrapped "add finalizer: %w" [] e), w)
  after_finalizer (ok profile, w) = after_resolve (resolve_spec client profile w)

  reconcile_live : WorkloadProfile Q → W → Result ReconcileResult × W
  reconcile_live profile w = after_finalizer (
      if client.contains_finalizer profile.finalizers profile_finalizer
      then (ok profile, w)
      else client.update_profile
          (record profile {
            finalizers = client.add_finalizer profile.finalizers profile_finalizer;
          })
          w)

  -- the profile as it was read, with its deletion timestamp
  reconcile_found : Option ℕ → WorkloadProfile Q → W → Result ReconcileResult × W
  reconcile_found none profile w = reconcile_live profile w
  reconcile_found (some t) profile w = handle_deletion client recorder profile w

  reconcile_fetched : Fetch (WorkloadProfile Q) → W → Result ReconcileResult × W
  reconcile_fetched (found profile) w = reconcile_found profile.deletion_timestamp profile w
  reconcile_fetched (not_found e) w = (ok done, w)
  reconcile_fetched (failed e) w = (err e, w)

  -- Reconcile
  unfoldable pub reconcile : NamespacedName → W → Result ReconcileResult × W
  unfolding reconcile_fetched reconcile_found reconcile_live after_finalizer after_resolve finished
      ensure_all and_then ensure_resource_claim_template wrap_sync set_claim
  reconcile req w = reconcile_fetched (client.get_profile req w) w
