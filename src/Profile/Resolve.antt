-- ===== src/Profile/Resolve.antt =====
-- internal/controller/profile_controller.go: resolveSpec. A deep copy is the value itself.
pub mod Merged
pub mod Unblocked
pub mod Generations
pub mod Templates
pub mod Accepted
use wto.Common.{ℕ, String, Bool, true, false, Option, none, some, List, [], ◌∷◌, if◌then◌else◌}
use wto.Api.{
  Arg, Message, sprintf, Error, wrapped, Result, ok, err, Fetch, found, not_found, failed,
  Condition, ConditionStatus, condition_true, condition_false, condition_valid,
  condition_template_found, condition_namespace_allowed, condition_drifted, Namespace,
  LabelSelector, PlacementConfig, WorkloadProfileSpec, WorkloadProfileStatus, WorkloadProfile,
  WorkloadProfileTemplate,
}
use wto.Client.{ProfileClient}
use wto.Profile.Conditions.{set_condition}

-- the condition Drifted, from the resolved generation that was there, and whether the resolved spec
-- names a template
drifted_conditions : ℕ → ℕ → Option ℕ → Bool → List Condition → List Condition
drifted_conditions now generation (some g) true conditions =
    set_condition now generation condition_drifted condition_false "InSync"
      (sprintf "Profile is in sync with template" []) conditions
drifted_conditions now generation _ _ conditions = conditions

module _ {Q : Type 0} where
  -- setProfileCondition, at a time
  unfoldable pub set_profile_condition :
      ℕ → String → ConditionStatus → String → Message → WorkloadProfile Q → WorkloadProfile Q
  set_profile_condition now cond_type status reason message profile = record profile {
    status = record (profile.status) {
      conditions =
          set_condition now profile.generation cond_type status reason message
            profile.status.conditions;
    };
  }

  -- the template's hardware and the profile's placement
  unfoldable pub merged_spec : WorkloadProfileTemplate Q → WorkloadProfile Q → WorkloadProfileSpec Q
  merged_spec template profile = record {
    template_ref = none;
    defaults = template.spec.defaults;
    containers = template.spec.containers;
    device_claims = template.spec.device_claims;
    placement = profile.spec.placement;
    target_kind = none;
  }

  abbrev pub resolved_by_ref : Option (WorkloadProfileSpec Q) → Bool
  resolved_by_ref none = false
  resolved_by_ref (some resolved) = elim (resolved.template_ref) [ none ↦ false | some t ↦ true ]

  -- the end of resolveSpec: the generations, and the condition Drifted
  with_generations : ℕ → WorkloadProfileTemplate Q → WorkloadProfile Q → WorkloadProfile Q
  with_generations now template profile = record profile {
    status = record (profile.status) {
      conditions =
          drifted_conditions now profile.generation profile.status.resolved_generation
            (resolved_by_ref profile.status.resolved_spec) profile.status.conditions;
      template_generation = some template.generation;
      resolved_generation = some profile.generation;
    };
  }

-- How resolveSpec ends: an error, nil with the status written, or a spec with the profile, whose
-- status is changed in memory only.
pub data Resolution (Q : Type 0) : Type 0 where
  refused : Error → Resolution Q
  waiting : Resolution Q
  resolved : WorkloadProfile Q → WorkloadProfileSpec Q → Resolution Q

module _ {Q W : Type 0} (client : ProfileClient Q W) where
  -- the status patch of the two cases that end with nil
  wait : String → Option Error × W → Resolution Q × W
  wait context (some e, w) = (refused (wrapped context [] e), w)
  wait context (none, w) = (waiting, w)

  template_missing : WorkloadProfile Q → String → W → WorkloadProfile Q
  template_missing profile name w =
      let text = sprintf "WorkloadProfileTemplate %q not found" (Arg.q name ∷ []) in
      set_profile_condition (client.now w) condition_valid condition_false "TemplateNotFound" text (
        set_profile_condition (client.now w) condition_template_found condition_false "NotFound"
          text profile)

  namespace_refused : WorkloadProfile Q → String → W → WorkloadProfile Q
  namespace_refused profile name w =
      set_profile_condition (client.now w) condition_valid condition_false "NamespaceNotAllowed"
        (sprintf "Namespace %q not allowed by template %q"
          (Arg.q profile.namespace ∷ Arg.q name ∷ []))
        (set_profile_condition (client.now w) condition_namespace_allowed condition_false
          "NotAllowed"
          (sprintf "Namespace %q does not match template %q namespaceSelector"
            (Arg.q profile.namespace ∷ Arg.q name ∷ []))
          profile)

  -- a namespace that is allowed, with the reason and the text of its condition
  finish : WorkloadProfileTemplate Q → WorkloadProfile Q → String → Message → W → Resolution Q × W
  finish template profile reason text w = (
    resolved
        (with_generations (client.now w) template (
          set_profile_condition (client.now w) condition_namespace_allowed condition_true reason
            text profile))
        (merged_spec template profile),
    w,
  )

  -- the selector's answer about the namespace's labels; `base` is the profile as it was read
  with_match :
      WorkloadProfile Q
      → WorkloadProfileTemplate Q
      → WorkloadProfile Q
      → String
      → Result Bool
      → W
      → Resolution Q × W
  with_match base template profile name (err e) w =
      (refused (wrapped "parse namespaceSelector: %w" [] e), w)
  with_match base template profile name (ok false) w =
      wait "patch status for namespace mismatch: %w"
        (client.patch_status base (namespace_refused profile name w) w)
  with_match base template profile name (ok true) w =
      finish template profile "Allowed"
        (sprintf "Namespace %q matches template namespaceSelector" (Arg.q profile.namespace ∷ [])) w

  with_namespace :
      WorkloadProfile Q
      → WorkloadProfileTemplate Q
      → WorkloadProfile Q
      → String
      → LabelSelector
      → Fetch Namespace
      → W
      → Resolution Q × W
  with_namespace base template profile name selector (found ns) w =
      with_match base template profile name (client.selector_matches selector ns.labels) w
  with_namespace base template profile name selector (not_found e) w =
      (refused (wrapped "get namespace %q: %w" (Arg.q profile.namespace ∷ []) e), w)
  with_namespace base template profile name selector (failed e) w =
      (refused (wrapped "get namespace %q: %w" (Arg.q profile.namespace ∷ []) e), w)

  with_selector :
      WorkloadProfile Q
      → WorkloadProfileTemplate Q
      → WorkloadProfile Q
      → String
      → Option LabelSelector
      → W
      → Resolution Q × W
  with_selector base template profile name none w =
      finish template profile "AllNamespaces"
        (sprintf "Template has no namespaceSelector — all namespaces allowed" []) w
  with_selector base template profile name (some selector) w =
      with_namespace base template profile name selector (client.get_namespace profile.namespace w)
        w

  with_template :
      WorkloadProfile Q → String → Fetch (WorkloadProfileTemplate Q) → W → Resolution Q × W
  with_template profile name (not_found e) w =
      wait "patch status for missing template: %w"
        (client.patch_status profile (template_missing profile name w) w)
  with_template profile name (failed e) w =
      (refused (wrapped "get template %q: %w" (Arg.q name ∷ []) e), w)
  with_template profile name (found template) w =
      with_selector profile template
        (set_profile_condition (client.now w) condition_template_found condition_true "Found"
          (sprintf "WorkloadProfileTemplate %q exists" (Arg.q name ∷ [])) profile)
        name template.spec.namespace_selector w

  resolve_ref : WorkloadProfile Q → Option String → W → Resolution Q × W
  resolve_ref profile none w = (resolved profile profile.spec, w)
  resolve_ref profile (some name) w = with_template profile name (client.get_template name w) w

  -- resolveSpec
  unfoldable pub resolve_spec : WorkloadProfile Q → W → Resolution Q × W
  unfolding resolve_ref with_template with_selector with_namespace with_match finish
      namespace_refused template_missing wait with_generations drifted_conditions
      set_profile_condition merged_spec
  resolve_spec profile w = resolve_ref profile profile.spec.template_ref w
