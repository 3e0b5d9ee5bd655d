-- ===== src/Lifecycle/Claims.antt =====
-- The ResourceClaimTemplates that the profile controller keeps, and those that the webhook names.
use wto.Common.{String, ◌≡◌, refl, ◌∙◌, ap, none, some, List, [], ◌∷◌, ◌++◌, map, All}
use wto.Api.{
  ok, found, NamespacedName, done, DeviceClaim, PodResourceClaim, Pod, WorkloadProfileSpec,
  WorkloadProfile,
}
use wto.Webhook.Handle.{mutate}
use wto.Webhook.Inject.Claims.{claim_ref}
use wto.Webhook.Handle.Mutation.{mutate-resource_claims}
use wto.Quantity.{Quantities}
use wto.Client.{Recorder, ProfileClient, ResourceClaimTemplate}
use wto.Client.Server.{IsServer, key_of_profile}
use wto.Profile.Resolve.Unblocked.{IsClean}
use wto.Profile.Reconcile.{reconcile}
use wto.Profile.Reconcile.Claims.{HasTemplate}
use wto.Profile.Reconcile.Patched.{IsSettled}
use wto.Profile.Reconcile.Settled.{reconcile-IsSettled}

module _ {Q W : Type 0} (ops : Quantities Q) (client : ProfileClient Q W) (recorder : Recorder W)
    (server : IsServer client) where
  -- The server has the template that a pod of a namespace names for a claim.
  abbrev pub IsBacked : String → W → PodResourceClaim → Type 0
  IsBacked namespace w claim =
      (name : String) × (t : ResourceClaimTemplate) × (claim.resource_claim_template_name
        ≡ some name)
      × (server.templates (record { namespace = namespace; name = name }) w ≡ found t)

  backed :
      (profile : WorkloadProfile Q) (claims : List DeviceClaim) (w : W)
      → All (HasTemplate ops client recorder server profile w) claims
      → All (IsBacked profile.namespace w) (map (claim_ref profile.name) claims)
  backed profile [] w h = tt
  backed profile (c ∷ cs) w ((t, there), h) = ((_, t, refl, there), backed profile cs w h)

  -- After a reconcile that ended well while nobody else wrote, of a profile that is not being
  -- deleted, that it read as the server had it, and whose conditions, if it names a template, have
  -- no type twice, and if it names none, have neither TemplateFound nor NamespaceAllowed False: a
  -- pod that the webhook mutates by the profile as the server then has it gets, after its own
  -- claims, a claim for each device claim of the resolved spec, and the server has the
  -- ResourceClaimTemplate that the claim names in the profile's namespace.
  pub mutate-IsBacked :
      (req : NamespacedName) (profile after : WorkloadProfile Q) (spec : WorkloadProfileSpec Q)
      (pod admitted : Pod Q) (w w' : W)
      → server.IsQuiet w
      → client.get_profile req w ≡ found profile
      → server.profiles req w ≡ found profile
      → profile.deletion_timestamp ≡ none
      → IsClean profile profile.spec.template_ref
      → reconcile ops client recorder req w ≡ (ok done, w')
      → server.profiles (key_of_profile profile) w' ≡ found after
      → after.status.resolved_spec ≡ some spec
      → mutate pod after spec ≡ some admitted
      → (admitted.resource_claims
          ≡ pod.resource_claims ++ map (claim_ref profile.name) spec.device_claims)
        × All (IsBacked profile.namespace w') (map (claim_ref profile.name) spec.device_claims)
  mutate-IsBacked req profile after spec pod admitted w w' quiet read there live clean h stored
        reconciled mutation =
      (
        mutate-resource_claims pod admitted after spec mutation
            ∙ ap (λ name. pod.resource_claims ++ map (claim_ref name) spec.device_claims) same_name,
        backed profile spec.device_claims w' (of_spec settled.claims),
      )
    where
      settled : IsSettled ops client recorder server profile w'
      settled =
          reconcile-IsSettled ops client recorder server req profile w w' quiet read there live
            clean h

      same_name : after.name ≡ profile.name
      same_name =
          ap (λ (key : NamespacedName). key.name)
            (server.named (key_of_profile profile) after w' stored)

      same_spec : settled.spec ≡ spec
      same_spec =
          let same : settled.after ≡ after = cc (settled.stored, stored) in
          cc (settled.resolved_spec, reconciled, same)

      of_spec :
          All (HasTemplate ops client recorder server profile w') settled.spec.device_claims
          → All (HasTemplate ops client recorder server profile w') spec.device_claims
      of_spec claims = rw (ap (λ (s : WorkloadProfileSpec Q). s.device_claims) same_spec) at claims
