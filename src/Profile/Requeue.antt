-- ===== src/Profile/Requeue.antt =====
-- internal/controller/profile_controller.go: findProfilesForTemplate, and the index that it reads.
pub mod Coverage
use wto.Common.{String, Option, none, some, List, [], ◌∷◌, map}
use wto.Api.{NamespacedName, WorkloadProfile}
use wto.Client.{ProfileIndex}

abbrev pub of_ref : Option String → List String
of_ref none = []
of_ref (some t) = t ∷ []

module _ {Q : Type 0} where
  -- the function that SetupWithManager registers for templateRefIndex; it gets profiles only
  unfoldable pub index_template_ref : WorkloadProfile Q → List String
  index_template_ref profile = of_ref profile.spec.template_ref

  abbrev requests_of : Option (List (WorkloadProfile Q)) → List NamespacedName
  requests_of none = []
  requests_of (some profiles) =
      map (λ p. record { namespace = p.namespace; name = p.name }) profiles

  -- findProfilesForTemplate, for the name of the template; `none` is an object that is no template
  unfoldable pub find_profiles_for_template :
      {W : Type 0} → ProfileIndex Q W → Option String → W → List NamespacedName
  find_profiles_for_template index none w = []
  find_profiles_for_template index (some template) w =
      requests_of (index.list_profiles index_template_ref template w)
