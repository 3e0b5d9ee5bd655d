-- ===== src/Profile/Resolve/Merged.antt =====
-- What resolveSpec resolves to, and for whom.
use mathlib.Core.Path.{subst}
use wto.Common.{ℕ, String, ◌≡◌, refl, ◌∙◌, ap, ◌⊎◌, Bool, true, false, Option, none, some, inl, inr}
use wto.Api.{
  Message, condition_true, condition_template_found, Error, Result, ok, err, Fetch, found,
  not_found, failed, Namespace, LabelSelector, WorkloadProfileSpec, WorkloadProfile,
  WorkloadProfileTemplate,
}
use wto.Client.{ProfileClient}
use wto.Profile.Resolve.{
  Resolution, refused, waiting, resolved, set_profile_condition, merged_spec, with_generations,
  wait, finish, with_match, with_namespace, with_selector, with_template, resolve_ref, resolve_spec,
}

module _ {Q W : Type 0} (client : ProfileClient Q W) where
  -- The template has no selector, or the namespace exists and the selector matches its labels.
  abbrev pub IsAllowed : WorkloadProfile Q → Option LabelSelector → W → Type 0
  IsAllowed profile none w = Unit
  IsAllowed profile (some selector) w =
      (ns : Namespace) × (client.get_namespace profile.namespace w ≡ found ns)
      × (client.selector_matches selector ns.labels ≡ ok true)

  -- A profile that was resolved by a template.
  pub record IsBound (profile profile' : WorkloadProfile Q) (spec : WorkloadProfileSpec Q) (w : W)
      : Type 0 where
    pub name : String
    pub referenced : profile.spec.template_ref ≡ some name
    pub template : WorkloadProfileTemplate Q
    pub fetched : client.get_template name w ≡ found template
    pub allowed : IsAllowed profile template.spec.namespace_selector w
    pub merged : spec ≡ merged_spec template profile
    pub template_generation : profile'.status.template_generation ≡ some template.generation
    pub resolved_generation : profile'.status.resolved_generation ≡ some profile.generation
    pub same_spec : profile'.spec ≡ profile.spec

  -- What a resolution in memory promises about the template at hand.
  abbrev Binds : WorkloadProfile Q → WorkloadProfileTemplate Q → W → Resolution Q × W → Type 0
  Binds profile template w (refused e, w') = Unit
  Binds profile template w (waiting, w') = Unit
  Binds profile template w (resolved profile' spec, w') =
      IsAllowed profile template.spec.namespace_selector w
      × (w' ≡ w)
      × (spec ≡ merged_spec template profile)
      × (profile'.status.template_generation ≡ some template.generation)
      × (profile'.status.resolved_generation ≡ some profile.generation)
      × (profile'.spec ≡ profile.spec)

  wait-Binds :
      (profile : WorkloadProfile Q) (template : WorkloadProfileTemplate Q) (w : W)
      (context : String) (r : Option Error × W)
      → Binds profile template w (wait client context r)
  unfolding wait
  wait-Binds profile template w context (some e, w') = tt
  wait-Binds profile template w context (none, w') = tt

  with_match-Binds :
      (base profile : WorkloadProfile Q) (template : WorkloadProfileTemplate Q) (name : String)
      (selector : LabelSelector) (ns : Namespace) (answer : Result Bool) (w : W)
      → template.spec.namespace_selector ≡ some selector
      → client.get_namespace profile.namespace w ≡ found ns
      → client.selector_matches selector ns.labels ≡ answer
      → Binds profile template w (with_match client base template profile name answer w)
  unfolding with_match finish with_generations set_profile_condition merged_spec
  with_match-Binds base profile template name selector ns (err e) w s n a = tt
  with_match-Binds base profile template name selector ns (ok false) w s n a =
      wait-Binds profile template w _ (client.patch_status base _ w)
  with_match-Binds base profile template name selector ns (ok true) w s n a =
      (rw s (ns, n, a), refl, refl, refl, refl, refl)

  with_namespace-Binds :
      (base profile : WorkloadProfile Q) (template : WorkloadProfileTemplate Q) (name : String)
      (selector : LabelSelector) (got : Fetch Namespace) (w : W)
      → template.spec.namespace_selector ≡ some selector
      → client.get_namespace profile.namespace w ≡ got
      → Binds profile template w (with_namespace client base template profile name selector got w)
  unfolding with_namespace
  with_namespace-Binds base profile template name selector (found ns) w s n =
      with_match-Binds base profile template name selector ns _ w s n refl
  with_namespace-Binds base profile template name selector (not_found e) w s n = tt
  with_namespace-Binds base profile template name selector (failed e) w s n = tt

  with_selector-Binds :
      (base profile : WorkloadProfile Q) (template : WorkloadProfileTemplate Q) (name : String)
      (o : Option LabelSelector) (w : W)
      → template.spec.namespace_selector ≡ o
      → Binds profile template w (with_selector client base template profile name o w)
  unfolding with_selector finish with_generations set_profile_condition merged_spec
  with_selector-Binds base profile template name none w s = (rw s tt, refl, refl, refl, refl, refl)
  with_selector-Binds base profile template name (some selector) w s =
      with_namespace-Binds base profile template name selector _ w s refl

  -- What a resolution promises about the profile as it was read.
  abbrev Resolves : WorkloadProfile Q → W → Resolution Q × W → Type 0
  Resolves profile w (refused e, w') = Unit
  Resolves profile w (waiting, w') = Unit
  Resolves profile w (resolved profile' spec, w') =
      (w' ≡ w)
      × (((profile.spec.template_ref ≡ none) × (spec ≡ profile.spec) × (profile' ≡ profile))
          ⊎ IsBound profile profile' spec w)

  -- The condition TemplateFound, which the profile has by then, changes none of this.
  bound :
      (profile : WorkloadProfile Q) (now : ℕ) (reason : String) (text : Message) (name : String)
      (template : WorkloadProfileTemplate Q) (w : W) (out : Resolution Q × W)
      → profile.spec.template_ref ≡ some name
      → client.get_template name w ≡ found template
      → Binds
          (set_profile_condition now condition_template_found condition_true reason text profile)
          template
          w
          out
      → Resolves profile w out
  unfolding set_profile_condition merged_spec
  bound profile now reason text name template w (refused e, w') ref got b = tt
  bound profile now reason text name template w (waiting, w') ref got b = tt
  bound profile now reason text name template w (resolved profile' spec, w') ref got
        (allowed, same_w, merged, tg, rg, same_spec) =
      (
        same_w,
        inr (record {
          name = name;
          referenced = ref;
          template = template;
          fetched = got;
          allowed = allowed;
          merged = merged;
          template_generation = tg;
          resolved_generation = rg;
          same_spec = same_spec;
        }),
      )

  wait-Resolves :
      (profile : WorkloadProfile Q) (w : W) (context : String) (r : Option Error × W)
      → Resolves profile w (wait client context r)
  unfolding wait
  wait-Resolves profile w context (some e, w') = tt
  wait-Resolves profile w context (none, w') = tt

  with_template-Resolves :
      (profile : WorkloadProfile Q) (name : String) (got : Fetch (WorkloadProfileTemplate Q))
      (w : W)
      → profile.spec.template_ref ≡ some name
      → client.get_template name w ≡ got
      → Resolves profile w (with_template client profile name got w)
  unfolding with_template
  with_template-Resolves profile name (not_found e) w ref g =
      wait-Resolves profile w _ (client.patch_status profile _ w)
  with_template-Resolves profile name (failed e) w ref g = tt
  with_template-Resolves profile name (found template) w ref g =
      bound profile _ _ _ name template w _ ref g
        (with_selector-Binds profile _ template name template.spec.namespace_selector w refl)

  resolve_ref-Resolves :
      (profile : WorkloadProfile Q) (ref : Option String) (w : W)
      → profile.spec.template_ref ≡ ref
      → Resolves profile w (resolve_ref client profile ref w)
  unfolding resolve_ref
  resolve_ref-Resolves profile none w e = (refl, inl (e, refl, refl))
  resolve_ref-Resolves profile (some name) w e = with_template-Resolves profile name _ w e refl

  -- A spec is resolved without a write. A profile with no reference resolves to its own spec and
  -- is not changed. Any other resolves only if its template exists and the template's selector, if
  -- there is one, matches its namespace: then to the template's hardware with its own placement,
  -- and both generations are recorded.
  pub resolve_spec_sound :
      (profile profile' : WorkloadProfile Q) (spec : WorkloadProfileSpec Q) (w w' : W)
      → resolve_spec client profile w ≡ (resolved profile' spec, w')
      → (w' ≡ w)
        × (((profile.spec.template_ref ≡ none) × (spec ≡ profile.spec) × (profile' ≡ profile))
            ⊎ IsBound profile profile' spec w)
  unfolding resolve_spec
  resolve_spec_sound profile profile' spec w w' h =
      subst (Resolves profile w) h (resolve_ref-Resolves profile profile.spec.template_ref w refl)

  -- Whatever is resolved names no template.
  pub resolve_spec-template_ref :
      (profile profile' : WorkloadProfile Q) (spec : WorkloadProfileSpec Q) (w w' : W)
      → resolve_spec client profile w ≡ (resolved profile' spec, w')
      → spec.template_ref ≡ none
  unfolding merged_spec
  resolve_spec-template_ref profile profile' spec w w' h =
      inline_or_bound (resolve_spec_sound profile profile' spec w w' h).1
    where
      inline_or_bound :
          ((profile.spec.template_ref ≡ none) × (spec ≡ profile.spec) × (profile' ≡ profile))
            ⊎ IsBound profile profile' spec w
          → spec.template_ref ≡ none
      inline_or_bound (inl (no_ref, same, _)) =
          ap (λ (s : WorkloadProfileSpec Q). s.template_ref) same ∙ no_ref
      inline_or_bound (inr b) = ap (λ (s : WorkloadProfileSpec Q). s.template_ref) b.merged
