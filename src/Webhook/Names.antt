-- ===== src/Webhook/Names.antt =====
-- The annotations, labels and gates of internal/webhook/pod_webhook.go, and the name that the
-- webhook and the profile controller give to a ResourceClaimTemplate.
use wto.Common.{String, [], ◌∷◌}
use wto.Common.Text.{concat}

abbrev pub profile_annotation : String
profile_annotation = "workload-template.io/profile-name"

abbrev pub scheduling_gate : String
scheduling_gate = "workload-template.io/scheduling-gate"

abbrev pub generation_anno : String
generation_anno = "workload-template.io/profile-generation"

abbrev pub template_gen_anno : String
template_gen_anno = "workload-template.io/template-generation"

abbrev pub overrides_anno : String
overrides_anno = "workload-template.io/overrides"

abbrev pub profile_label : String
profile_label = "workload-template.io/profile-name"

abbrev pub template_label : String
template_label = "workload-template.io/template-name"

abbrev pub kueue_queue_label : String
kueue_queue_label = "kueue.x-k8s.io/queue-name"

abbrev pub kueue_gate : String
kueue_gate = "kueue.x-k8s.io/admission"

-- fmt.Sprintf("wto-%s-%s", profile.Name, claim.Name)
unfoldable pub claim_template_name : String → String → String
claim_template_name profile claim = concat ("wto-" ∷ profile ∷ "-" ∷ claim ∷ [])
