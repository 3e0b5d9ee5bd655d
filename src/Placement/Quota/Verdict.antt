-- ===== src/Placement/Quota/Verdict.antt =====
-- When the quota check lets a pod through, in numbers.
use wto.Common.{String, ◌≡◌, refl, ◌↔◌, Option, none, some, List, [], ◌∷◌, All, arith}
use wto.Common.Int.{ℤ, ◌+ℤ◌, ◌≤ℤ◌, le-sub_iff}
use wto.Common.Map.{lookup, or_else}
use wto.Api.{
  Message, ResourceRequirements, ResourceQuota, DeviceClaim, ExactDeviceRequest, WorkloadProfile,
}
use wto.Quantity.{Quantities, IsExact}
use wto.Placement.Quota.{
  first_reason, device_key, device_count, resolve_profile_resources, used_or_zero, shortage,
  hard_request, used_request, request_shortage, exact_shortage, claim_shortage, check_resources,
  check_resource_quota, check_quota,
}

first_reason-eq-none_iff {ℓ} :
    {A : Type ℓ} (f : A → Option Message) (xs : List A)
    → (first_reason f xs ≡ none) ↔ All (λ x. f x ≡ none) xs
first_reason-eq-none_iff f [] = (λ _. tt, λ _. refl)
first_reason-eq-none_iff f (x ∷ xs) = ground (arith, first_reason-eq-none_iff f xs)

iff_trans : {A B C : Type 0} → A ↔ B → B ↔ C → A ↔ C
iff_trans f g = (λ a. g.0 (f.0 a), λ c. f.1 (g.1 c))

All-iff {ℓ} :
    {A : Type ℓ} {P R : A → Type 0} (xs : List A) → ((x : A) → P x ↔ R x) → All P xs ↔ All R xs
All-iff [] h = (λ a. a, λ a. a)
All-iff (x ∷ xs) h =
    (λ (p, ps). ((h x).0 p, (All-iff xs h).0 ps), λ (r, rs). ((h x).1 r, (All-iff xs h).1 rs))

or_else-eq-none_iff : (a b : Option Message) → (or_else a b ≡ none) ↔ ((a ≡ none) × (b ≡ none))
or_else-eq-none_iff a b = ground arith

module _ {Q : Type 0} (ops : Quantities Q) (value : Q → ℤ) where
  -- The amount still fits under the hard limit beside what is used, if there is a limit.
  abbrev pub Fits : Q → Option Q → Q → Type 0
  Fits requested none used = Unit
  Fits requested (some hard) used = value used +ℤ value requested ≤ℤ value hard

  abbrev pub ExactFits : ResourceQuota Q → Option ExactDeviceRequest → Type 0
  ExactFits quota none = Unit
  ExactFits quota (some exactly) =
      Fits (ops.new_quantity (device_count exactly.count))
        (lookup (device_key exactly.device_class_name) quota.hard)
        (used_or_zero ops (lookup (device_key exactly.device_class_name) quota.used))

  -- Every request of the profile's resources fits, and every device claim of its spec. Without
  -- resources nothing is asked.
  abbrev pub ResourcesFit :
      ResourceQuota Q → WorkloadProfile Q → Option (ResourceRequirements Q) → Type 0
  ResourcesFit quota profile none = Unit
  ResourcesFit quota profile (some r) =
      All (λ e. Fits e.1 (hard_request ops quota e.0) (used_request ops quota e.0)) r.requests
      × All (λ c. ExactFits quota c.request.exactly) profile.spec.device_claims

  module _ (exact : IsExact ops value) where
    shortage_iff :
        (reason : Message) (requested : Q) (hard : Option Q) (used : Q)
        → (shortage ops reason requested hard used ≡ none) ↔ Fits requested hard used
    unfolding shortage
    shortage_iff reason requested none used = (λ _. tt, λ _. refl)
    shortage_iff reason requested (some hard) used = ground (
      arith,
      le-sub_iff (value requested) (value used) (value hard),
      exact.value_sub hard used,
      exact.le_of_cmp requested (ops.sub hard used),
      exact.cmp_of_le requested (ops.sub hard used),
    )

    request_shortage_iff :
        (quota : ResourceQuota Q) (e : String × Q)
        → (request_shortage ops quota e ≡ none)
          ↔ Fits e.1 (hard_request ops quota e.0) (used_request ops quota e.0)
    unfolding request_shortage
    request_shortage_iff quota (name, requested) =
        shortage_iff _ requested (hard_request ops quota name) (used_request ops quota name)

    exact_shortage_iff :
        (quota : ResourceQuota Q) (o : Option ExactDeviceRequest)
        → (exact_shortage ops quota o ≡ none) ↔ ExactFits quota o
    unfolding exact_shortage
    exact_shortage_iff quota none = (λ _. tt, λ _. refl)
    exact_shortage_iff quota (some e) =
        shortage_iff _ (ops.new_quantity (device_count e.count))
          (lookup (device_key e.device_class_name) quota.hard)
          (used_or_zero ops (lookup (device_key e.device_class_name) quota.used))

    claim_shortage_iff :
        (quota : ResourceQuota Q) (claim : DeviceClaim)
        → (claim_shortage ops quota claim ≡ none) ↔ ExactFits quota claim.request.exactly
    unfolding claim_shortage
    claim_shortage_iff quota claim = exact_shortage_iff quota claim.request.exactly

    check_resources_iff :
        (quota : ResourceQuota Q) (profile : WorkloadProfile Q)
        (o : Option (ResourceRequirements Q))
        → (check_resources ops quota profile o ≡ none) ↔ ResourcesFit quota profile o
    unfolding check_resources
    check_resources_iff quota profile none = (λ _. tt, λ _. refl)
    check_resources_iff quota profile (some r) =
        let requests =
          iff_trans (first_reason-eq-none_iff (request_shortage ops quota) r.requests)
            (All-iff r.requests (request_shortage_iff quota)) in
        let claims =
          iff_trans (first_reason-eq-none_iff (claim_shortage ops quota) profile.spec.device_claims)
            (All-iff profile.spec.device_claims (claim_shortage_iff quota)) in
        let both =
          or_else-eq-none_iff (first_reason (request_shortage ops quota) r.requests)
            (first_reason (claim_shortage ops quota) profile.spec.device_claims) in
        (
          λ h. (requests.0 (both.0 h).0, claims.0 (both.0 h).1),
          λ (p, q). both.1 (requests.1 p, claims.1 q),
        )

    check_resource_quota_iff :
        (quota : ResourceQuota Q) (profile : WorkloadProfile Q)
        → (check_resource_quota ops quota profile ≡ none)
          ↔ ResourcesFit quota profile (resolve_profile_resources profile)
    unfolding check_resource_quota
    check_resource_quota_iff quota profile =
        check_resources_iff quota profile (resolve_profile_resources profile)

    -- For exact quantities and quotas that are listed, the pods of a profile pass the quota check
    -- exactly if, in every quota of the namespace, each request of the profile's first resources
    -- and, if there are such resources, each exact device claim of its spec fits beside what is
    -- used under the hard limit, where there is one.
    pub check_quota_iff :
        (quotas : List (ResourceQuota Q)) (profile : WorkloadProfile Q)
        → (check_quota ops (some quotas) profile ≡ none)
          ↔ All (λ quota. ResourcesFit quota profile (resolve_profile_resources profile)) quotas
    unfolding check_quota
    check_quota_iff quotas profile =
        iff_trans
          (first_reason-eq-none_iff (λ quota. check_resource_quota ops quota profile) quotas)
          (All-iff quotas (λ quota. check_resource_quota_iff quota profile))
