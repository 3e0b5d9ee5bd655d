-- ===== src/Profile/Status/Validity.antt =====
-- What updateStatus decides, and what the webhook may rely on.
use wto.Common.{
  ◌≡◌, refl, ◌↔◌, Bool, true, false, not, List, [], ◌∷◌, All, any, all, arith, Bool-cases, inl, inr,
}
use wto.Api.{
  condition_true, condition_false, condition_valid, DeviceClaim, WorkloadProfileSpec,
  WorkloadProfile,
}
use wto.Quantity.{Quantities}
use wto.Client.{ProfileClient}
use wto.Webhook.Handle.{is_condition_true}
use wto.Profile.Conditions.Reads.{is_condition_true-set_condition}
use wto.Profile.Status.{
  queue_valid, not_missing, is_blocking, claim_key, checked_conditions, is_valid, final_conditions,
  updated,
}

all-eq-true_iff {ℓ} :
    {A : Type ℓ} (p : A → Bool) (xs : List A) → (all p xs ≡ true) ↔ All (λ x. p x ≡ true) xs
all-eq-true_iff p [] = (λ _. tt, λ _. refl)
all-eq-true_iff p (x ∷ xs) = ground (arith, all-eq-true_iff p xs)

any-eq-false_iff {ℓ} :
    {A : Type ℓ} (p : A → Bool) (xs : List A) → (not (any p xs) ≡ true) ↔ All (λ x. p x ≡ false) xs
any-eq-false_iff p [] = (λ _. tt, λ _. refl)
any-eq-false_iff p (x ∷ xs) = ground (arith, any-eq-false_iff p xs)

module _ {Q W : Type 0} (ops : Quantities Q) (client : ProfileClient Q W) where
  final_conditions_read :
      (profile : WorkloadProfile Q) (resolved : WorkloadProfileSpec Q) (w : W)
      → is_condition_true (final_conditions ops client profile resolved w) condition_valid
        ≡ is_valid ops client profile resolved w
  unfolding final_conditions
  final_conditions_read profile resolved w =
      elim (Bool-cases (is_valid ops client profile resolved w)) [
        | inl valid ↦
            rw valid (is_condition_true-set_condition _ _ condition_valid condition_true _ _ _)
        | inr invalid ↦
            rw invalid (is_condition_true-set_condition _ _ condition_valid condition_false _ _ _)
      ]

  -- The profile that updateStatus writes reads as valid, by the webhook's test, exactly if a queue
  -- placement names its queue, no device claim's ResourceClaimTemplate is reported as missing, and
  -- no condition says that the template is not found or the namespace not allowed. So a missing
  -- device class does not make it invalid.
  pub updated_valid_iff :
      (profile : WorkloadProfile Q) (resolved : WorkloadProfileSpec Q) (w : W)
      → (is_condition_true (updated ops client profile resolved w).status.conditions condition_valid
          ≡ true)
        ↔ ((queue_valid resolved.placement ≡ true)
            × All
                (λ claim.
                  not_missing (client.get_claim_template (claim_key ops client profile claim) w)
                  ≡ true)
                resolved.device_claims
            × All (λ c. is_blocking c ≡ false) (checked_conditions ops client profile resolved w))
  unfolding updated is_valid
  updated_valid_iff profile resolved w = ground (
    arith,
    final_conditions_read profile resolved w,
    all-eq-true_iff
        (λ (claim : DeviceClaim).
          not_missing (client.get_claim_template (claim_key ops client profile claim) w))
        resolved.device_claims,
    any-eq-false_iff is_blocking (checked_conditions ops client profile resolved w),
  )
