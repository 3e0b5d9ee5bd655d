-- ===== src/Profile/Status/Blocking.antt =====
-- The conditions that block a profile, TemplateFound and NamespaceAllowed, through updateStatus.
use wto.Common.{ℕ, String, ◌≡◌, refl, ◌∙◌, ◌↔◌, Bool, true, false, List, [], ◌∷◌, ◌==◌, All, arith}
use wto.Api.{
  Condition, condition_template_found, condition_namespace_allowed, DeviceClaim,
  WorkloadProfileSpec, WorkloadProfile,
}
use wto.Quantity.{Quantities}
use wto.Client.{ProfileClient}
use wto.Profile.Conditions.Reads.{
  has_false, HasNoFalse, has_false-set_condition, has_false-remove_condition,
}
use wto.Profile.TargetKind.Kept.{has_false-validate_target_kind}
use wto.Profile.Status.{is_blocking, set_dra_conditions, checked_conditions}

-- A profile with neither condition False.
abbrev pub IsUnblocked : List Condition → Type 0
IsUnblocked cs = HasNoFalse condition_template_found cs × HasNoFalse condition_namespace_allowed cs

pub IsUnblocked-iff : (cs : List Condition) → All (λ c. is_blocking c ≡ false) cs ↔ IsUnblocked cs
IsUnblocked-iff [] = (λ _. (refl, refl), λ _. tt)
IsUnblocked-iff (c ∷ cs) = ground (arith, IsUnblocked-iff cs)

has_false-set_dra_conditions :
    (now generation : ℕ) (available : Bool) (claims : List DeviceClaim) (j : String)
    (cs : List Condition)
    → ("DRAEnabled" == j) ≡ false
    → ("DeviceClassAvailable" == j) ≡ false
    → has_false j (set_dra_conditions now generation available claims cs) ≡ has_false j cs
unfolding set_dra_conditions
has_false-set_dra_conditions now generation available [] j cs e f =
    has_false-remove_condition _ j _ f ∙ has_false-remove_condition _ j cs e
has_false-set_dra_conditions now generation true (c ∷ claims) j cs e f =
    has_false-set_condition now generation _ _ _ _ j _ f
    ∙ has_false-set_condition now generation _ _ _ _ j cs e
has_false-set_dra_conditions now generation false (c ∷ claims) j cs e f =
    has_false-set_condition now generation _ _ _ _ j _ f
    ∙ has_false-set_condition now generation _ _ _ _ j cs e

module _ {Q W : Type 0} (ops : Quantities Q) (client : ProfileClient Q W) where
  -- The checks of updateStatus before it decides on Valid leave a condition of another type that
  -- is False as it is.
  pub has_false-checked_conditions :
      (profile : WorkloadProfile Q) (resolved : WorkloadProfileSpec Q) (w : W) (j : String)
      → ("DRAEnabled" == j) ≡ false
      → ("DeviceClassAvailable" == j) ≡ false
      → ("TargetKindValid" == j) ≡ false
      → has_false j (checked_conditions ops client profile resolved w)
        ≡ has_false j profile.status.conditions
  unfolding checked_conditions
  has_false-checked_conditions profile resolved w j e f g =
      has_false-validate_target_kind _ _ profile.spec.target_kind _ _ j _ g
      ∙ has_false-set_dra_conditions _ _ _ _ j _ e f

  -- So they block nothing.
  pub checked_conditions-IsUnblocked :
      (profile : WorkloadProfile Q) (resolved : WorkloadProfileSpec Q) (w : W)
      → IsUnblocked profile.status.conditions
      → IsUnblocked (checked_conditions ops client profile resolved w)
  checked_conditions-IsUnblocked profile resolved w (h, k) = (
    has_false-checked_conditions profile resolved w condition_template_found refl refl refl ∙ h,
    has_false-checked_conditions profile resolved w condition_namespace_allowed refl refl refl ∙ k,
  )
