-- ===== src/Profile/Requeue/Coverage.antt =====
-- The requests that a change of a template makes are those of the profiles that it concerns.
use mathlib.Core.List.{Memᴰ}
use mathlib.Core.List.Memᴰ
use wto.Common.{
  String, ◌≡◌, refl, sym, ◌∙◌, ap, ◌⊎◌, inl, inr, false, Option, none, some, List, [], ◌∷◌, ◌==◌,
  eq_iff, map, All, Bool-cases, Option-cases,
}
use wto.Api.{Fetch, found, NamespacedName, WorkloadProfile, WorkloadProfileTemplate}
use wto.Client.{ProfileClient, ProfileIndex}
use wto.Client.Server.{key_of_profile}
use wto.Profile.Resolve.{resolve_spec}
use wto.Profile.Resolve.Templates.{with_templates, resolve_spec_unchanged}
use wto.Profile.Requeue.{of_ref, index_template_ref, find_profiles_for_template}

module _ {Q W : Type 0} (client : ProfileClient Q W) (index : ProfileIndex Q W) where
  -- What client.MatchingFields is documented to list: the profiles whose index has the value.
  pub record IsIndex : Type 0 where
    pub complete :
        (of : WorkloadProfile Q → List String) (value : String) (w : W)
        (listed : List (WorkloadProfile Q)) (key : NamespacedName) (profile : WorkloadProfile Q)
        → index.list_profiles of value w ≡ some listed
        → client.get_profile key w ≡ found profile
        → Memᴰ value (of profile)
        → Memᴰ profile listed
    pub sound :
        (of : WorkloadProfile Q → List String) (value : String) (w : W)
        (listed : List (WorkloadProfile Q))
        → index.list_profiles of value w ≡ some listed
        → All
            (λ profile.
              Memᴰ value (of profile)
              × (client.get_profile (key_of_profile profile) w ≡ found profile))
            listed

  -- A request is for a profile that refers to the template.
  abbrev pub RefersTo : String → W → NamespacedName → Type 0
  RefersTo template w key =
      (profile : WorkloadProfile Q) × (client.get_profile key w ≡ found profile)
      × (profile.spec.template_ref ≡ some template)

  indexed :
      (profile : WorkloadProfile Q) (template : String)
      → profile.spec.template_ref ≡ some template
      → Memᴰ template (index_template_ref profile)
  unfolding index_template_ref
  indexed profile template h = rw h (Memᴰ.head refl)

  unindexed :
      (profile : WorkloadProfile Q) (template : String)
      → Memᴰ template (index_template_ref profile)
      → profile.spec.template_ref ≡ some template
  unfolding index_template_ref
  unindexed profile template h = by_ref profile.spec.template_ref h
    where
      by_ref : (r : Option String) → Memᴰ template (of_ref r) → r ≡ some template
      by_ref none h = absurd (Memᴰ.not-nil h)
      by_ref (some t) (Memᴰ.head e) = ap some (sym e)
      by_ref (some t) (Memᴰ.tail m) = absurd (Memᴰ.not-nil m)

  All-refer :
      (template : String) (w : W) (listed : List (WorkloadProfile Q))
      → All
          (λ profile.
            Memᴰ template (index_template_ref profile)
            × (client.get_profile (key_of_profile profile) w ≡ found profile))
          listed
      → All (RefersTo template w) (map (λ p. key_of_profile p) listed)
  All-refer template w [] h = tt
  All-refer template w (p ∷ ps) ((at, there), h) =
      ((p, there, unindexed p template at), All-refer template w ps h)

  concerns :
      (law : IsIndex) (template : String) (w : W) (listed : List (WorkloadProfile Q))
      (get : String → W → Fetch (WorkloadProfileTemplate Q)) (key : NamespacedName)
      (profile : WorkloadProfile Q)
      → index.list_profiles index_template_ref template w ≡ some listed
      → ((name : String) → (name == template) ≡ false → get name w ≡ client.get_template name w)
      → client.get_profile key w ≡ found profile
      → (profile.spec.template_ref ≡ none)
        ⊎ ((name : String) × (profile.spec.template_ref ≡ some name))
      → Memᴰ (key_of_profile profile) (map (λ p. key_of_profile p) listed)
        ⊎ (resolve_spec (with_templates client get) profile w ≡ resolve_spec client profile w)
  concerns law template w listed get key profile list others there (inl inline) =
      inr (resolve_spec_unchanged client get profile w (λ name h. cc (inline, h)))
  concerns law template w listed get key profile list others there (inr (name, at)) =
      elim (Bool-cases (name == template)) [
        | inl same ↦ inl (
            Memᴰ.map (λ p. key_of_profile p)
              (law.complete index_template_ref template w listed key profile list there
                (indexed profile template (at ∙ ap some ((eq_iff name template).0 same)))))
        | inr other ↦ inr (
            resolve_spec_unchanged client get profile w (λ n h.
              let same : n ≡ name = cc (h, at) in others n (ap (λ x. x == template) same ∙ other)))
      ]

  -- If the list by the index succeeds, and the index has exactly the profiles with the value:
  -- after a change of one template, each request is for a profile that refers to it, and a profile
  -- of the cluster has a request or is resolved as before the change.
  pub find_profiles_for_template_lem :
      (law : IsIndex) (template : String) (w : W) (listed : List (WorkloadProfile Q))
      (get : String → W → Fetch (WorkloadProfileTemplate Q)) (key : NamespacedName)
      (profile : WorkloadProfile Q)
      → index.list_profiles index_template_ref template w ≡ some listed
      → ((name : String) → (name == template) ≡ false → get name w ≡ client.get_template name w)
      → client.get_profile key w ≡ found profile
      → All (RefersTo template w) (find_profiles_for_template index (some template) w)
        × (Memᴰ (key_of_profile profile) (find_profiles_for_template index (some template) w)
            ⊎ (resolve_spec (with_templates client get) profile w ≡ resolve_spec client profile w))
  unfolding find_profiles_for_template
  find_profiles_for_template_lem law template w listed get key profile list others there = rw list (
    All-refer template w listed (law.sound index_template_ref template w listed list),
    concerns law template w listed get key profile list others there
        (Option-cases profile.spec.template_ref),
  )
