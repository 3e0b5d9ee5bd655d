-- ===== src/Tests/PropagationTests.antt =====
-- The propagation controller on one configuration, for jobs.
use wto.Common.{String, ◌≡◌, refl, ◌⊎◌, false, Option, none, some, List, [], ◌∷◌, arith}
use wto.Common.Map.{Map, lookup}
use wto.Common.Text.{concat}
use wto.Api.{found, NamespacedName, WorkloadTypeConfigSpec}
use wto.Webhook.Names.{profile_annotation}
use wto.Client.{GroupVersionKind, Unstructured, PropagationClient}
use wto.Propagation.Registry.{Registry}
use wto.Propagation.Annotate.Idempotent.{IsStore}
use wto.Propagation.Reconcile.{map_fn, propagate_fetched, reconcile}
use wto.Propagation.Reconcile.Requests.{object_key, reconcile-map_fn}
use wto.Propagation.Reconcile.Writes.{IsPropagation, reconcile-IsPropagation}

-- An object with its own annotations, and those of one template.
pub record Job : Type 0 where
  pub own : Map String
  pub template : Option (Map String)

abbrev access : Unstructured Job
access = record {
  namespace = λ job. "team";
  name = λ job. "train";
  annotations = λ job. job.own;
  nested_string_map = λ job fields. job.template;
  set_nested_string_map = λ job m fields. some (record job { template = some m });
}

access-IsStore : IsStore access
access-IsStore = record { found_after_set = λ u u' m fields h. grind (arith, h) }

abbrev job : Job
job = record { own = (profile_annotation, "gpu") ∷ []; template = none }

abbrev pub job_kind : GroupVersionKind
job_kind = record { group = "batch"; version = "v1"; kind = "Job" }

abbrev pub job_spec : WorkloadTypeConfigSpec
job_spec = record {
  group = "batch";
  version = "v1";
  kind = "Job";
  resource = "jobs";
  pod_template_path = some "spec.template";
  annotation_paths = [];
  known_container_names = [];
  native_propagation = false;
}

-- The state is the list of the jobs that were updated.
abbrev pub watches : PropagationClient Job (List Job)
watches = record {
  get_object = λ gvk key w. found job;
  update_object = λ u w. (none, u ∷ w);
  watch = λ config_name gvk w. (none, w);
}

abbrev pub show_gvk : GroupVersionKind → String
show_gvk gvk = concat (gvk.group ∷ "/" ∷ gvk.version ∷ ", Kind=" ∷ gvk.kind ∷ [])

abbrev pub one_registry : Registry
one_registry = record {
  watched_gvks = ("job", job_kind) ∷ [];
  config_specs = ("job", job_spec) ∷ [];
}

abbrev job_request : NamespacedName
job_request = record { namespace = "team"; name = "job/train" }

reconcile-map_fn_example :
    (req : NamespacedName) × (map_fn access "job" job ≡ req ∷ [])
    × (reconcile access watches one_registry req []
        ≡ propagate_fetched access watches job_spec
            (watches.get_object job_kind (object_key access job) [])
            [])
unfolding lookup
reconcile-map_fn_example =
    reconcile-map_fn access watches one_registry "job" job_kind job_spec job []
      (refl, (refl, (refl, tt))) (refl, refl) refl refl

reconcile-IsPropagation_example :
    ((reconcile access watches one_registry job_request []).1 ≡ [])
    ⊎ IsPropagation access watches one_registry job_request []
        (reconcile access watches one_registry job_request []).1
reconcile-IsPropagation_example = reconcile-IsPropagation access watches one_registry job_request []
