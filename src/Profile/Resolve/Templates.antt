-- ===== src/Profile/Resolve/Templates.antt =====
-- Of all templates, resolveSpec reads the one that the profile refers to.
use wto.Common.{String, ◌≡◌, refl, ap, Option, none, some}
use wto.Api.{Fetch, WorkloadProfile, WorkloadProfileTemplate}
use wto.Client.{ProfileClient}
use wto.Profile.Resolve.{
  resolved, with_template, with_selector, template_missing, finish, with_namespace, wait,
  with_match, namespace_refused, resolve_ref, resolve_spec,
}

module _ {Q W : Type 0} (client : ProfileClient Q W) where
  -- The client with other templates.
  abbrev pub with_templates : (String → W → Fetch (WorkloadProfileTemplate Q)) → ProfileClient Q W
  with_templates get = record client { get_template = get }

  resolve_ref_unchanged :
      (get : String → W → Fetch (WorkloadProfileTemplate Q)) (profile : WorkloadProfile Q) (w : W)
      (template : Option String)
      → ((name : String) → template ≡ some name → get name w ≡ client.get_template name w)
      → resolve_ref (with_templates get) profile template w ≡ resolve_ref client profile template w
  unfolding resolve_ref with_template with_selector template_missing finish with_namespace wait
      with_match namespace_refused
  resolve_ref_unchanged get profile w none same = refl
  resolve_ref_unchanged get profile w (some name) same =
      ap (λ got. with_template client profile name got w) (same name refl)

  pub resolve_spec_unchanged :
      (get : String → W → Fetch (WorkloadProfileTemplate Q)) (profile : WorkloadProfile Q) (w : W)
      → ((name : String)
          → profile.spec.template_ref ≡ some name
          → get name w ≡ client.get_template name w)
      → resolve_spec (with_templates get) profile w ≡ resolve_spec client profile w
  unfolding resolve_spec
  resolve_spec_unchanged get profile w same =
      resolve_ref_unchanged get profile w profile.spec.template_ref same

  -- A profile without one is its own spec.
  pub resolve_spec_inline :
      (profile : WorkloadProfile Q) (w : W)
      → profile.spec.template_ref ≡ none
      → resolve_spec client profile w ≡ (resolved profile profile.spec, w)
  unfolding resolve_spec resolve_ref
  resolve_spec_inline profile w inline = by_ref profile.spec.template_ref inline
    where
      by_ref :
          (r : Option String)
          → r ≡ none
          → resolve_ref client profile r w ≡ (resolved profile profile.spec, w)
      by_ref none h = refl
      by_ref (some t) h = cc
