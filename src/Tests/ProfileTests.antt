-- ===== src/Tests/ProfileTests.antt =====
-- The profile controller on a profile that refers to a template, and the conditions it writes.
use wto.Common.{String, ◌≡◌, refl, ◌↔◌, ◌⊎◌, true, false, none, some, List, [], ◌∷◌, All}
use wto.Common.Int.{ℤ, pos}
use wto.Api.{
  Node, Arg, Message, sprintf, api, ok, found, not_found, Condition, condition_true,
  condition_valid, condition_template_found, condition_namespace_allowed, LabelSelector,
  WorkloadProfileSpec, WorkloadProfile, WorkloadProfileTemplate,
}
use wto.Client.{Recorder, ProfileClient}
use wto.Webhook.Handle.{is_condition_true}
use wto.Profile.Conditions.{set_condition}
use wto.Profile.Nodes.{node_satisfies_profile, placement_node}
use wto.Profile.Nodes.Fit.{NodeFits, node_satisfies_profile_iff}
use wto.Profile.Resolve.{resolved, resolve_spec}
use wto.Profile.Resolve.Merged.{IsBound, resolve_spec_sound, resolve_spec-template_ref}
use wto.Profile.Resolve.Generations.{SameGenerations}
use wto.Profile.Status.{
  queue_valid, not_missing, is_blocking, claim_key, checked_conditions, updated,
}
use wto.Profile.Status.Validity.{updated_valid_iff}
use wto.Profile.Deletion.{handle_deletion}
use wto.Profile.Deletion.Safety.{NoGatedPod, Blocked, Released, handle_deletion_cases}
use wto.Profile.Reconcile.{reconcile}
use wto.Profile.Reconcile.Generations.{reconcile_keeps_generations}
use wto.Tests.Fixtures.{
  quantities, quantities-IsExact, gpu_claim, node_placement, by_index, gpu_spec, empty_status,
  gpu_profile, gated_pod,
}

abbrev selector : LabelSelector
selector = record { match_labels = ("gpu", "yes") ∷ []; match_expressions = [] }

abbrev pub template : WorkloadProfileTemplate ℤ
template = record {
  name = "base";
  generation = 3;
  spec = record {
    defaults = none;
    containers = by_index ∷ [];
    device_claims = gpu_claim ∷ [];
    namespace_selector = some selector;
  };
  status = record { conditions = []; binding_count = none };
}

abbrev pub bound_profile : WorkloadProfile ℤ
bound_profile = record (gpu_profile) {
  spec = record {
    template_ref = some "base";
    defaults = none;
    containers = [];
    device_claims = [];
    placement = some node_placement;
    target_kind = some "Job";
  };
  status = empty_status;
}

-- A status patch: its base, and the profile that is patched in.
pub record StatusPatch : Type 0 where
  pub base : WorkloadProfile ℤ
  pub new : WorkloadProfile ℤ

-- The state is the list of the status patches that were made.
abbrev pub client : ProfileClient ℤ (List StatusPatch)
client = record {
  now = λ w. 9;
  get_profile = λ key w. found bound_profile;
  get_template = λ name w. found template;
  get_namespace = λ name w. found (record { name = "team"; labels = ("gpu", "yes") ∷ [] });
  get_claim_template = λ key w. not_found (api "not found");
  get_type_config = λ kind w. not_found (api "not found");
  list_device_classes = λ w. some ("gpu.nvidia.com" ∷ []);
  list_nodes = λ w. some [];
  list_pods = λ namespace w. ok (gated_pod ∷ []);
  selector_matches = λ s labels. ok true;
  contains_finalizer = λ finalizers f. true;
  add_finalizer = λ finalizers f. f ∷ finalizers;
  remove_finalizer = λ finalizers f. [];
  set_controller_reference = λ profile rct. ok rct;
  update_profile = λ profile w. (ok profile, w);
  patch_status = λ base new w. (none, record { base = base; new = new } ∷ w);
  create_or_update = λ rct f w. (none, w);
}

abbrev recorder : Recorder (List StatusPatch)
recorder = record { event = λ key kind reason text w. w }

abbrev true_condition : String → String → Message → Condition
true_condition t reason message = record {
  type = t;
  status = condition_true;
  observed_generation = 7;
  last_transition_time = 9;
  reason = reason;
  message = message;
}

-- The profile that the template is resolved for.
abbrev matched_profile : WorkloadProfile ℤ
matched_profile = record (bound_profile) {
  status = record (empty_status) {
    conditions =
        true_condition condition_template_found "Found"
          (sprintf "WorkloadProfileTemplate %q exists" (Arg.q "base" ∷ []))
        ∷ true_condition condition_namespace_allowed "Allowed"
            (sprintf "Namespace %q matches template namespaceSelector" (Arg.q "team" ∷ []))
        ∷ [];
    template_generation = some 3;
    resolved_generation = some 7;
  };
}

abbrev matched_spec : WorkloadProfileSpec ℤ
matched_spec = gpu_spec

resolve_spec_test :
    resolve_spec client bound_profile [] ≡ (resolved matched_profile matched_spec, [])
unfolding resolve_spec set_condition
resolve_spec_test = refl

resolve_spec_sound_example :
    (◌≡◌ {A = List StatusPatch} [] [])
    × (((bound_profile.spec.template_ref ≡ none)
          × (matched_spec ≡ bound_profile.spec)
          × (matched_profile ≡ bound_profile))
        ⊎ IsBound client bound_profile matched_profile matched_spec [])
resolve_spec_sound_example =
    resolve_spec_sound client bound_profile matched_profile matched_spec [] [] resolve_spec_test

resolve_spec-template_ref_example : matched_spec.template_ref ≡ none
resolve_spec-template_ref_example =
    resolve_spec-template_ref client bound_profile matched_profile matched_spec [] []
      resolve_spec_test

updated_valid_iff_example :
    (is_condition_true
        (updated quantities client matched_profile matched_spec []).status.conditions
        condition_valid
      ≡ true)
    ↔ ((queue_valid matched_spec.placement ≡ true)
        × All
            (λ claim.
              not_missing
                (client.get_claim_template (claim_key quantities client matched_profile claim) [])
              ≡ true)
            matched_spec.device_claims
        × All
            (λ c. is_blocking c ≡ false)
            (checked_conditions quantities client matched_profile matched_spec []))
updated_valid_iff_example = updated_valid_iff quantities client matched_profile matched_spec []

handle_deletion_cases_example :
    (NoGatedPod client recorder gpu_profile (gated_pod ∷ [])
      × Released client recorder gpu_profile [] (handle_deletion client recorder gpu_profile []))
    ⊎ (¬ NoGatedPod client recorder gpu_profile (gated_pod ∷ [])
        × Blocked client recorder [] (handle_deletion client recorder gpu_profile []))
handle_deletion_cases_example =
    handle_deletion_cases client recorder gpu_profile (gated_pod ∷ []) [] refl refl

-- No patch that was made changes a generation.
abbrev KeepsGenerations : List StatusPatch → Type 0
KeepsGenerations w = All (λ p. SameGenerations p.base p.new) w

reconcile_keeps_generations_example :
    KeepsGenerations
      (reconcile quantities client recorder (record { namespace = "team"; name = "gpu" }) []).1
reconcile_keeps_generations_example =
    reconcile_keeps_generations quantities client recorder KeepsGenerations
      (record {
        update_keeps = λ profile w h. h;
        patch_keeps = λ base new w same h. (same, h);
        sync_keeps = λ rct f w h. h;
        event_keeps = λ key kind reason text w h. h;
      })
      (record { namespace = "team"; name = "gpu" }) [] tt

abbrev pub node : Node ℤ
node = record {
  labels = ("zone", "a") ∷ [];
  taints = [];
  allocatable = ("cpu", pos 8) ∷ ("memory", pos 4) ∷ [];
}

node_satisfies_profile_iff_example :
    (node_satisfies_profile quantities node gpu_spec ≡ true)
    ↔ NodeFits quantities (λ n. n) node gpu_spec (placement_node quantities gpu_spec.placement)
node_satisfies_profile_iff_example =
    node_satisfies_profile_iff quantities (λ n. n) quantities-IsExact node gpu_spec
