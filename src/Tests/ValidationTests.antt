-- ===== src/Tests/ValidationTests.antt =====
-- A template without hardware, which the rules of its type allow.
use wto.Common.{◌≡◌, refl, sym, ap, Bool, false, true, none, List, []}
use wto.Common.Int.{ℤ}
use wto.Api.{
  Fetch, found, not_found, failed, WorkloadProfile, WorkloadProfileSpec, WorkloadProfileTemplate,
}
use wto.Api.Validation.{has_hardware, spec_accepted, template_spec_accepted}
use wto.Client.{ProfileClient}
use wto.Profile.Resolve.{resolved, resolve_spec, merged_spec}
use wto.Profile.Resolve.Accepted.{resolve_spec-accepted}
use wto.Testutil.Templates.{new_template}
use wto.Tests.ProfileTests.{client, StatusPatch, bound_profile}

abbrev bare_client : ProfileClient ℤ (List StatusPatch)
bare_client = record (client) { get_template = λ name w. found (new_template name) }

abbrev bare_profile : WorkloadProfile ℤ
bare_profile = record (bound_profile) { spec = record (bound_profile.spec) { target_kind = none } }

abbrev bare_spec : WorkloadProfileSpec ℤ
bare_spec = merged_spec (new_template "base") bare_profile

bare_test :
    (r : WorkloadProfile ℤ) × (resolve_spec bare_client bare_profile []
      ≡ (resolved r bare_spec, []))
unfolding resolve_spec new_template
bare_test = (_, refl)

no_hardware_test : spec_accepted bare_spec ≡ false
unfolding spec_accepted merged_spec new_template
no_hardware_test = refl

abbrev accepted_of : Fetch (WorkloadProfileTemplate ℤ) → Bool
accepted_of (found t) = template_spec_accepted t.spec
accepted_of (not_found e) = true
accepted_of (failed e) = true

resolve_spec-accepted_example : spec_accepted bare_spec ≡ has_hardware bare_spec
unfolding spec_accepted template_spec_accepted new_template
resolve_spec-accepted_example =
    resolve_spec-accepted bare_client bare_profile bare_test.0 bare_spec [] [] bare_test.1 refl
      (λ name template there. ap accepted_of (sym there))
