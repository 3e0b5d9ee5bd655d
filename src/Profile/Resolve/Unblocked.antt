-- ===== src/Profile/Resolve/Unblocked.antt =====
-- What resolveSpec changes of the profile that it resolves.
use mathlib.Core.Path.{subst}
use wto.Common.{ℕ, String, ◌≡◌, refl, ◌∙◌, Bool, true, false, Option, none, some, List}
use wto.Api.{
  Message, condition_true, condition_valid, condition_template_found, condition_namespace_allowed,
  Error, Result, ok, err, Fetch, found, not_found, failed, Namespace, LabelSelector, Condition,
  WorkloadProfileSpec, WorkloadProfile, WorkloadProfileTemplate,
}
use wto.Webhook.Handle.{is_condition_true}
use wto.Client.{ProfileClient}
use wto.Profile.Conditions.{set_condition}
use wto.Profile.Conditions.Laws.{HasUniqueTypes, set_condition-HasUniqueTypes}
use wto.Profile.Conditions.Reads.{
  HasNoFalse, is_condition_true-set_condition_other, has_false-set_condition,
  set_condition-HasNoFalse_self,
}
use wto.Profile.Status.Blocking.{IsUnblocked}
use wto.Profile.Resolve.{
  Resolution, refused, waiting, resolved, set_profile_condition, resolved_by_ref,
  drifted_conditions, with_generations, wait, finish, with_match, with_namespace, with_selector,
  with_template, resolve_ref, resolve_spec,
}

-- Nothing that the profile has stands in the way: with a template no condition has a type twice,
-- and without one neither condition about a template is False.
abbrev pub IsClean : {Q : Type 0} → WorkloadProfile Q → Option String → Type 0
IsClean profile none = IsUnblocked profile.status.conditions
IsClean profile (some name) = HasUniqueTypes profile.status.conditions

-- The profile after a resolution, beside the one that was read.
pub record IsResolved {Q : Type 0} (profile profile' : WorkloadProfile Q) : Type 0 where
  pub same_name : profile'.name ≡ profile.name
  pub same_namespace : profile'.namespace ≡ profile.namespace
  pub same_resolved_spec : profile'.status.resolved_spec ≡ profile.status.resolved_spec
  pub same_valid :
      is_condition_true profile'.status.conditions condition_valid
      ≡ is_condition_true profile.status.conditions condition_valid
  pub unblocked : IsUnblocked profile'.status.conditions

-- The condition Drifted, if it is set, is none of the three.
drifted_kept :
    (now generation : ℕ) (before : Option ℕ) (by_ref : Bool) (cs : List Condition)
    → IsUnblocked cs
    → IsUnblocked (drifted_conditions now generation before by_ref cs)
      × (is_condition_true (drifted_conditions now generation before by_ref cs) condition_valid
          ≡ is_condition_true cs condition_valid)
unfolding drifted_conditions
drifted_kept now generation none by_ref cs h = (h, refl)
drifted_kept now generation (some g) false cs h = (h, refl)
drifted_kept now generation (some g) true cs (h, k) = (
  (
    has_false-set_condition now generation _ _ _ _ _ cs refl ∙ h,
    has_false-set_condition now generation _ _ _ _ _ cs refl ∙ k,
  ),
  is_condition_true-set_condition_other now generation _ _ _ _ condition_valid cs refl,
)

module _ {Q W : Type 0} (client : ProfileClient Q W) where
  abbrev Keeps : WorkloadProfile Q → Resolution Q × W → Type 0
  Keeps profile (refused e, w') = Unit
  Keeps profile (waiting, w') = Unit
  Keeps profile (resolved profile' spec, w') = IsResolved profile profile'

  wait-Keeps :
      (profile : WorkloadProfile Q) (context : String) (r : Option Error × W)
      → Keeps profile (wait client context r)
  unfolding wait
  wait-Keeps profile context (some e, w') = tt
  wait-Keeps profile context (none, w') = tt

  -- A template that was found: the condition TemplateFound is True.
  record IsPrepared (profile found_profile : WorkloadProfile Q) : Type 0 where
    same_name : found_profile.name ≡ profile.name
    same_namespace : found_profile.namespace ≡ profile.namespace
    same_resolved_spec : found_profile.status.resolved_spec ≡ profile.status.resolved_spec
    same_valid :
        is_condition_true found_profile.status.conditions condition_valid
        ≡ is_condition_true profile.status.conditions condition_valid
    no_false : HasNoFalse condition_template_found found_profile.status.conditions
    unique : HasUniqueTypes found_profile.status.conditions

  finish-Keeps :
      (profile found_profile : WorkloadProfile Q) (template : WorkloadProfileTemplate Q)
      (reason : String) (text : Message) (w : W)
      → IsPrepared profile found_profile
      → Keeps profile (finish client template found_profile reason text w)
  unfolding finish with_generations set_profile_condition
  finish-Keeps profile found_profile template reason text w p =
      let cs = found_profile.status.conditions in
      let now = client.now w in
      let generation = found_profile.generation in
      let allowed =
        set_condition now generation condition_namespace_allowed condition_true reason text cs in
      let kept =
        drifted_kept now generation found_profile.status.resolved_generation
          (resolved_by_ref found_profile.status.resolved_spec) allowed
          (
            has_false-set_condition now generation _ _ _ _ _ cs refl ∙ p.no_false,
            set_condition-HasNoFalse_self now generation _ _ _ cs p.unique,
          ) in
      record {
        same_name = p.same_name;
        same_namespace = p.same_namespace;
        same_resolved_spec = p.same_resolved_spec;
        same_valid =
            kept.1
            ∙ is_condition_true-set_condition_other now generation _ _ _ _ condition_valid cs refl
            ∙ p.same_valid;
        unblocked = kept.0;
      }

  with_match-Keeps :
      (profile base found_profile : WorkloadProfile Q) (template : WorkloadProfileTemplate Q)
      (name : String) (answer : Result Bool) (w : W)
      → IsPrepared profile found_profile
      → Keeps profile (with_match client base template found_profile name answer w)
  unfolding with_match
  with_match-Keeps profile base found_profile template name (err e) w p = tt
  with_match-Keeps profile base found_profile template name (ok false) w p =
      wait-Keeps profile _ (client.patch_status base _ w)
  with_match-Keeps profile base found_profile template name (ok true) w p =
      finish-Keeps profile found_profile template _ _ w p

  with_namespace-Keeps :
      (profile base found_profile : WorkloadProfile Q) (template : WorkloadProfileTemplate Q)
      (name : String) (selector : LabelSelector) (got : Fetch Namespace) (w : W)
      → IsPrepared profile found_profile
      → Keeps profile (with_namespace client base template found_profile name selector got w)
  unfolding with_namespace
  with_namespace-Keeps profile base found_profile template name selector (found ns) w p =
      with_match-Keeps profile base found_profile template name _ w p
  with_namespace-Keeps profile base found_profile template name selector (not_found e) w p = tt
  with_namespace-Keeps profile base found_profile template name selector (failed e) w p = tt

  with_selector-Keeps :
      (profile base found_profile : WorkloadProfile Q) (template : WorkloadProfileTemplate Q)
      (name : String) (selector : Option LabelSelector) (w : W)
      → IsPrepared profile found_profile
      → Keeps profile (with_selector client base template found_profile name selector w)
  unfolding with_selector
  with_selector-Keeps profile base found_profile template name none w p =
      finish-Keeps profile found_profile template _ _ w p
  with_selector-Keeps profile base found_profile template name (some selector) w p =
      with_namespace-Keeps profile base found_profile template name selector _ w p

  prepared :
      (profile : WorkloadProfile Q) (now : ℕ) (reason : String) (text : Message)
      → HasUniqueTypes profile.status.conditions
      → IsPrepared profile
          (set_profile_condition now condition_template_found condition_true reason text profile)
  unfolding set_profile_condition
  prepared profile now reason text unique = record {
    same_name = refl;
    same_namespace = refl;
    same_resolved_spec = refl;
    same_valid =
        is_condition_true-set_condition_other now profile.generation _ _ _ _ condition_valid
          profile.status.conditions refl;
    no_false =
        set_condition-HasNoFalse_self now profile.generation _ _ _ profile.status.conditions unique;
    unique =
        set_condition-HasUniqueTypes now profile.generation _ _ _ _ profile.status.conditions
          unique;
  }

  with_template-Keeps :
      (profile : WorkloadProfile Q) (name : String) (got : Fetch (WorkloadProfileTemplate Q))
      (w : W)
      → HasUniqueTypes profile.status.conditions
      → Keeps profile (with_template client profile name got w)
  unfolding with_template
  with_template-Keeps profile name (not_found e) w unique =
      wait-Keeps profile _ (client.patch_status profile _ w)
  with_template-Keeps profile name (failed e) w unique = tt
  with_template-Keeps profile name (found template) w unique =
      with_selector-Keeps profile profile _ template name _ w (prepared profile _ _ _ unique)

  resolve_ref-Keeps :
      (profile : WorkloadProfile Q) (ref : Option String) (w : W)
      → IsClean profile ref
      → Keeps profile (resolve_ref client profile ref w)
  unfolding resolve_ref
  resolve_ref-Keeps profile none w clean = record {
    same_name = refl;
    same_namespace = refl;
    same_resolved_spec = refl;
    same_valid = refl;
    unblocked = clean;
  }
  resolve_ref-Keeps profile (some name) w unique = with_template-Keeps profile name _ w unique

  -- A profile that is resolved keeps its name, its last resolved spec and its validity, and neither
  -- condition about a template is False.
  pub resolve_spec-IsResolved :
      (profile profile' : WorkloadProfile Q) (spec : WorkloadProfileSpec Q) (w w' : W)
      → IsClean profile profile.spec.template_ref
      → resolve_spec client profile w ≡ (resolved profile' spec, w')
      → IsResolved profile profile'
  unfolding resolve_spec
  resolve_spec-IsResolved profile profile' spec w w' clean h =
      subst (Keeps profile) h (resolve_ref-Keeps profile profile.spec.template_ref w clean)
