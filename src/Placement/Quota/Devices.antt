-- ===== src/Placement/Quota/Devices.antt =====
-- Which device claims the quota check reads, and when it reads none.
use mathlib.Core.Path.{fun_ext}
use wto.Common.{
  ◌≡◌, refl, ◌∙◌, ap, Option, none, some, List, [], ◌∷◌, arith, Option-cases, inl, inr,
}
use wto.Api.{
  Message, ResourceRequirements, ResourceQuota, DeviceClaim, WorkloadProfileSpec, WorkloadProfile,
}
use wto.Quantity.{Quantities}
use wto.Placement.Quota.{
  first_reason, effective_spec, first_resources, resolve_profile_resources, check_resources,
  check_resource_quota, check_quota,
}

first_reason-none {ℓ} :
    {A : Type ℓ} (f : A → Option Message) (xs : List A)
    → ((x : A) → f x ≡ none)
    → first_reason f xs ≡ none
first_reason-none f [] h = refl
first_reason-none f (x ∷ xs) h = rw h (first_reason-none f xs h)

module _ {Q : Type 0} where
  -- Another list of device claims in the resolved spec.
  abbrev with_claims :
      List DeviceClaim → Option (WorkloadProfileSpec Q) → Option (WorkloadProfileSpec Q)
  with_claims claims none = none
  with_claims claims (some resolved) = some (record resolved { device_claims = claims })

  abbrev pub with_resolved_claims : List DeviceClaim → WorkloadProfile Q → WorkloadProfile Q
  with_resolved_claims claims profile = record profile {
    status = record (profile.status) {
      resolved_spec = with_claims claims profile.status.resolved_spec;
    };
  }

  no_resources :
      (profile : WorkloadProfile Q)
      → (effective_spec profile).containers ≡ []
      → (effective_spec profile).defaults ≡ none
      → resolve_profile_resources profile ≡ none
  unfolding resolve_profile_resources first_resources
  no_resources profile no_containers no_defaults = rw (no_containers, no_defaults, first_resources)

  same_resources :
      (claims : List DeviceClaim) (profile : WorkloadProfile Q)
      → resolve_profile_resources (with_resolved_claims claims profile)
        ≡ resolve_profile_resources profile
  unfolding resolve_profile_resources
  same_resources claims profile = elim (Option-cases profile.status.resolved_spec) [
    | inl missing ↦ ground (arith, missing)
    | inr (resolved, there) ↦ ground (arith, there)
  ]

module _ {Q : Type 0} (ops : Quantities Q) where
  same_check :
      (quota : ResourceQuota Q) (claims : List DeviceClaim) (profile : WorkloadProfile Q)
      → check_resource_quota ops quota (with_resolved_claims claims profile)
        ≡ check_resource_quota ops quota profile
  unfolding check_resource_quota check_resources
  same_check quota claims profile =
      unread (resolve_profile_resources (with_resolved_claims claims profile))
      ∙ ap (check_resources ops quota profile) (same_resources claims profile)
    where
      unread :
          (o : Option (ResourceRequirements Q))
          → check_resources ops quota (with_resolved_claims claims profile) o
            ≡ check_resources ops quota profile o
      unread none = refl
      unread (some r) = refl

  -- The quota check does not depend on the device claims of the resolved spec.
  pub check_quota-with_resolved_claims :
      (quotas : Option (List (ResourceQuota Q))) (claims : List DeviceClaim)
      (profile : WorkloadProfile Q)
      → check_quota ops quotas (with_resolved_claims claims profile)
        ≡ check_quota ops quotas profile
  unfolding check_quota
  check_quota-with_resolved_claims none claims profile = refl
  check_quota-with_resolved_claims (some quotas) claims profile =
      ap (λ f. first_reason f quotas) (fun_ext (λ quota. same_check quota claims profile))

  -- A profile whose effective spec has neither containers nor defaults passes every quota, whatever
  -- its device claims.
  pub check_quota_without_resources :
      (quotas : Option (List (ResourceQuota Q))) (profile : WorkloadProfile Q)
      → (effective_spec profile).containers ≡ []
      → (effective_spec profile).defaults ≡ none
      → check_quota ops quotas profile ≡ none
  unfolding check_quota
  check_quota_without_resources none profile no_containers no_defaults = refl
  check_quota_without_resources (some quotas) profile no_containers no_defaults =
      first_reason-none (λ quota. check_resource_quota ops quota profile) quotas
        (λ quota.
          unfold check_resource_quota in
          ap (check_resources ops quota profile) (no_resources profile no_containers no_defaults))
