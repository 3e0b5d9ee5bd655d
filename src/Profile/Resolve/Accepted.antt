-- ===== src/Profile/Resolve/Accepted.antt =====
-- The resolved spec against the rules of validation of its type.
use wto.Common.{String, ◌≡◌, ◌⊎◌, inl, inr, true, none, arith}
use wto.Api.{found, WorkloadProfileSpec, WorkloadProfile, WorkloadProfileTemplate}
use wto.Api.Validation.{has_hardware, spec_accepted, template_spec_accepted}
use wto.Client.{ProfileClient}
use wto.Profile.Resolve.{resolved, merged_spec, resolve_spec}
use wto.Profile.Resolve.Merged.{IsBound, resolve_spec_sound}

module _ {Q W : Type 0} (client : ProfileClient Q W) where
  merged_accepted :
      (profile : WorkloadProfile Q) (template : WorkloadProfileTemplate Q)
      → spec_accepted profile.spec ≡ true
      → template_spec_accepted template.spec ≡ true
      → spec_accepted (merged_spec template profile) ≡ has_hardware (merged_spec template profile)
  unfolding spec_accepted template_spec_accepted merged_spec
  merged_accepted profile template h k = ground arith

  inline_accepted :
      (spec : WorkloadProfileSpec Q)
      → spec.template_ref ≡ none
      → spec_accepted spec ≡ true
      → spec_accepted spec ≡ has_hardware spec
  unfolding spec_accepted
  inline_accepted spec inline h = ground (arith, inline)

  -- If the profile's spec keeps the rules of its type, and the spec of every template that is read
  -- keeps its own, then the spec that resolveSpec gives keeps the rules of the same type exactly
  -- if it has defaults, containers or device claims.
  pub resolve_spec-accepted :
      (profile profile' : WorkloadProfile Q) (spec : WorkloadProfileSpec Q) (w w' : W)
      → resolve_spec client profile w ≡ (resolved profile' spec, w')
      → spec_accepted profile.spec ≡ true
      → ((name : String) (template : WorkloadProfileTemplate Q)
          → client.get_template name w ≡ found template
          → template_spec_accepted template.spec ≡ true)
      → spec_accepted spec ≡ has_hardware spec
  resolve_spec-accepted profile profile' spec w w' h accepted templates =
      by_case (resolve_spec_sound client profile profile' spec w w' h).1
    where
      by_case :
          ((profile.spec.template_ref ≡ none) × (spec ≡ profile.spec) × (profile' ≡ profile))
            ⊎ IsBound client profile profile' spec w
          → spec_accepted spec ≡ has_hardware spec
      by_case (inl (inline, same, _)) = rw same (inline_accepted profile.spec inline accepted)
      by_case (inr b) =
          rw b.merged
            (merged_accepted profile b.template accepted (templates b.name b.template b.fetched))
