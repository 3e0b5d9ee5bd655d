-- ===== src/Testutil/Templates.antt =====
-- internal/testutil/testutil.go: TemplateBuilder.
use wto.Common.{String, none, some, [], ◌∷◌, ◌++◌}
use wto.Common.Int.{ℤ}
use wto.Common.Map.{Map}
use wto.Api.{WorkloadProfileTemplateSpec, WorkloadProfileTemplate}
use wto.Testutil.Pods.{plain}
use wto.Testutil.Profiles.{exact_claim}

module _ {Q : Type 0} where
  -- NewTemplate
  unfoldable pub new_template : String → WorkloadProfileTemplate Q
  new_template name = record {
    name = name;
    generation = 1;
    spec = record {
      defaults = none;
      containers = [];
      device_claims = [];
      namespace_selector = none;
    };
    status = record { conditions = []; binding_count = none };
  }

  abbrev with_spec :
      WorkloadProfileTemplate Q → WorkloadProfileTemplateSpec Q → WorkloadProfileTemplate Q
  with_spec template spec = record template { spec = spec }

  -- WithDefaults
  unfoldable pub with_defaults :
      Map Q → Map Q → WorkloadProfileTemplate Q → WorkloadProfileTemplate Q
  with_defaults requests limits template =
      with_spec template
        (record (template.spec) { defaults = some (record { resources = plain requests limits }) })

  -- WithDeviceClaim
  unfoldable pub with_device_claim :
      String → String → ℤ → WorkloadProfileTemplate Q → WorkloadProfileTemplate Q
  with_device_claim claim_name device_class_name count template =
      with_spec template (record (template.spec) {
        device_claims =
            template.spec.device_claims ++ exact_claim claim_name device_class_name count ∷ [];
      })

  -- WithNamespaceSelector
  unfoldable pub with_namespace_selector :
      Map String → WorkloadProfileTemplate Q → WorkloadProfileTemplate Q
  with_namespace_selector match_labels template = with_spec template (record (template.spec) {
    namespace_selector = some (record { match_labels = match_labels; match_expressions = [] });
  })
