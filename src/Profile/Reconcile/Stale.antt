-- ===== src/Profile/Reconcile/Stale.antt =====
-- What an earlier template leaves behind.
use wto.Common.{◌≡◌, refl, ◌∙◌, inl, inr, Bool, true, false, ◌||◌, none, List, Bool-cases, All}
use wto.Api.{
  Condition, condition_template_found, condition_namespace_allowed, condition_valid,
  WorkloadProfileSpec, WorkloadProfile,
}
use wto.Webhook.Handle.{is_condition_true}
use wto.Quantity.{Quantities}
use wto.Client.{ProfileClient}
use wto.Profile.Conditions.Reads.{has_false, has_false-set_condition}
use wto.Profile.Resolve.{resolved, resolve_spec}
use wto.Profile.Resolve.Templates.{resolve_spec_inline}
use wto.Profile.Status.{is_blocking, is_valid, checked_conditions, final_conditions, updated}
use wto.Profile.Status.Validity.{updated_valid_iff}
use wto.Profile.Status.Blocking.{IsUnblocked-iff, has_false-checked_conditions}

-- One of the conditions about a template is False.
abbrev pub is_stale : List Condition → Bool
is_stale cs = has_false condition_template_found cs || has_false condition_namespace_allowed cs

module _ {Q W : Type 0} (ops : Quantities Q) (client : ProfileClient Q W) where
  stale_checked :
      (profile : WorkloadProfile Q) (spec : WorkloadProfileSpec Q) (w : W)
      → is_stale (checked_conditions ops client profile spec w) ≡ is_stale profile.status.conditions
  stale_checked profile spec w =
      rw
        (
          has_false-checked_conditions ops client profile spec w condition_template_found refl refl
              refl,
          has_false-checked_conditions ops client profile spec w condition_namespace_allowed refl
              refl refl,
        )
        refl

  not_stale : (cs : List Condition) → All (λ c. is_blocking c ≡ false) cs → is_stale cs ≡ false
  not_stale cs h = let (a, b) = (IsUnblocked-iff cs).0 h in rw (a, b) refl

  stale_final :
      (profile : WorkloadProfile Q) (spec : WorkloadProfileSpec Q) (w : W)
      → is_stale (updated ops client profile spec w).status.conditions
        ≡ is_stale (checked_conditions ops client profile spec w)
  unfolding updated
  stale_final profile spec w = elim (Bool-cases (is_valid ops client profile spec w)) [
    | inl good ↦
        rw (good, final_conditions)
          (rw
            (
              has_false-set_condition _ _ _ _ _ _ condition_template_found _ refl,
              has_false-set_condition _ _ _ _ _ _ condition_namespace_allowed _ refl,
            )
            refl)
    | inr bad ↦
        rw (bad, final_conditions)
          (rw
            (
              has_false-set_condition _ _ _ _ _ _ condition_template_found _ refl,
              has_false-set_condition _ _ _ _ _ _ condition_namespace_allowed _ refl,
            )
            refl)
  ]

  -- A profile that names no template but has TemplateFound or NamespaceAllowed False is resolved
  -- to its own spec, yet in the status that updateStatus then writes it is not valid, and one of
  -- the two is False still.
  pub updated_stale :
      (profile : WorkloadProfile Q) (w : W)
      → profile.spec.template_ref ≡ none
      → is_stale profile.status.conditions ≡ true
      → (resolve_spec client profile w ≡ (resolved profile profile.spec, w))
        × (is_condition_true
              (updated ops client profile profile.spec w).status.conditions
              condition_valid
            ≡ false)
        × (is_stale (updated ops client profile profile.spec w).status.conditions ≡ true)
  updated_stale profile w inline stale =
      let kept = stale_checked profile profile.spec w ∙ stale in
      (
        resolve_spec_inline client profile w inline,
        elim (Bool-cases (
            is_condition_true (updated ops client profile profile.spec w).status.conditions
              condition_valid)) [
                | inl good ↦
                    let (_, _, free) =
                      (updated_valid_iff ops client profile profile.spec w).0 good in
                    cc (not_stale _ free, kept)
                | inr bad ↦ bad
              ],
        stale_final profile profile.spec w ∙ kept,
      )
