-- ===== src/Tests/ConvergenceTests.antt =====
-- The propagation controller over objects whose paths are independent, and calls of the registry.
use wto.Common.{
  String, ◌≡◌, refl, Bool, true, false, Option, none, some, List, [], ◌∷◌, ◌==◌, eq_iff, eq_refl,
  arith, if◌then◌else◌,
}
use wto.Common.Map.{Map, lookup}
use wto.Common.Text.{split_dots}
use wto.Api.{found, ok, done, WorkloadTypeConfigSpec}
use wto.Webhook.Names.{profile_annotation}
use wto.Client.{Unstructured, PropagationClient}
use wto.Propagation.Registry.Laws.{IsConsistent}
use wto.Propagation.Registry.Refine.{
  view, Call, register, deregister, run, table_run, run-table_run,
}
use wto.Propagation.Reconcile.{propagate, propagate_fetched}
use wto.Propagation.Annotate.{propagate_via_annotation_path, propagate_via_pod_template_path}
use wto.Propagation.Reconcile.Converges.{apart, IsTree, propagate_fetched_converges}
use wto.Tests.PropagationTests.{job_kind, job_spec, watches, show_gvk, one_registry}

-- An object by its own annotations and the maps at its paths.
record Doc : Type 0 where
  own : Map String
  at : List String → Option (Map String)

abbrev same_path : List String → List String → Bool
same_path [] [] = true
same_path [] (y ∷ g) = false
same_path (x ∷ f) [] = false
same_path (x ∷ f) (y ∷ g) = if x == y then same_path f g else false

abbrev stored : Doc → Map String → List String → Doc
stored u m f = record u { at = λ g. if same_path f g then some m else u.at g }

abbrev access : Unstructured Doc
access = record {
  namespace = λ u. "team";
  name = λ u. "train";
  annotations = λ u. u.own;
  nested_string_map = λ u f. u.at f;
  set_nested_string_map = λ u m f. some (stored u m f);
}

same_path-same : (f : List String) → same_path f f ≡ true
same_path-same [] = refl
same_path-same (x ∷ f) = rw eq_refl (same_path-same f)

same_path-apart : (f g : List String) → apart f g ≡ true → same_path f g ≡ false
same_path-apart [] g h = cc
same_path-apart (x ∷ f) [] h = cc
same_path-apart (x ∷ f) (y ∷ g) h = ground (arith, same_path-apart f g)

stored_doc : (u' v : Doc) → ◌≡◌ {A = Option Doc} (some v) (some u') → u' ≡ v
stored_doc u' v h = cc

access-IsTree : IsTree access
access-IsTree = record {
  store = record {
    found_after_set =
        λ u u' m f h. rw (stored_doc u' (stored u m f) h) (rw (same_path-same f) refl);
  };
  others =
      λ u u' m f g h away. rw (stored_doc u' (stored u m f) h) (rw (same_path-apart f g away) refl);
}

abbrev doc : Doc
doc = record { own = (profile_annotation, "gpu") ∷ []; at = λ f. none }

abbrev two_paths : WorkloadTypeConfigSpec
two_paths = record (job_spec) {
  annotation_paths = "spec.worker.annotations" ∷ "spec.head.annotations" ∷ [];
}

abbrev Whole : Doc → Type 0
Whole u = Unit

abbrev documents : PropagationClient Doc (List Doc)
documents = record {
  get_object = λ gvk key w. found doc;
  update_object = λ u w. (none, u ∷ w);
  watch = λ config_name gvk w. (none, w);
}

propagate_fetched_converges_example :
    (propagate access two_paths (propagate access two_paths doc "gpu").0 "gpu"
      ≡ ((propagate access two_paths doc "gpu").0, false))
    × (propagate_fetched access documents two_paths
          (found (propagate access two_paths doc "gpu").0)
          []
        ≡ (ok done, []))
unfolding propagate lookup split_dots propagate_via_annotation_path propagate_via_pod_template_path
propagate_fetched_converges_example =
    propagate_fetched_converges access documents access-IsTree Whole two_paths doc "gpu" []
      (λ u m good. (_, refl, tt), (λ u m good. (_, refl, tt), (λ u m good. (_, refl, tt), tt)))
      ((refl, (refl, tt)), ((refl, tt), (tt, tt))) tt refl

one_registry-IsConsistent : IsConsistent one_registry
unfolding lookup
one_registry-IsConsistent name = ground (arith, eq_iff "job" name)

abbrev calls : List Call
calls = register "ray" job_kind two_paths ∷ deregister "job" ∷ register "ray" job_kind job_spec ∷ []

run-table_run_example :
    ((
      (run watches show_gvk calls one_registry []).0,
      (
        view (run watches show_gvk calls one_registry []).1.0,
        (run watches show_gvk calls one_registry []).1.1,
      ),
    )
      ≡ table_run watches show_gvk calls (view one_registry) [])
    × IsConsistent (run watches show_gvk calls one_registry []).1.0
run-table_run_example =
    run-table_run watches show_gvk calls one_registry [] one_registry-IsConsistent
