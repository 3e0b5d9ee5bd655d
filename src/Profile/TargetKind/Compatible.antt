-- ===== src/Profile/TargetKind/Compatible.antt =====
-- When a profile is compatible with its target kind.
use wto.Common.{
  ℕ, String, ◌≡◌, refl, ◌↔◌, ◌⊎◌, inl, inr, true, Option, none, some, List, [], ◌∷◌, ◌==◌, any, All,
  arith, Option-cases,
}
use wto.Api.{
  Fetch, found, not_found, failed, Condition, condition_target_kind_valid, ContainerResources,
  WorkloadTypeConfig,
}
use wto.Webhook.Handle.{is_condition_true}
use wto.Profile.Conditions.Reads.{is_condition_true-set_condition}
use wto.Profile.TargetKind.{
  set_target_kind, check_containers, unknown_container, container_mismatch, check_type_config,
  validate_target_kind,
}

-- The container is not named, or its name is one of the known.
abbrev pub IsKnown : List String → Option String → Type 0
IsKnown known none = Unit
IsKnown known (some name) = any (λ k. k == name) known ≡ true

module _ {Q : Type 0} where
  unknown_container_iff :
      (known : List String) (containers : List (ContainerResources Q))
      → (unknown_container known containers ≡ none) ↔ All (λ c. IsKnown known c.name) containers
  unfolding unknown_container
  unknown_container_iff known [] = (λ _. tt, λ _. refl)
  unknown_container_iff known (c ∷ cs) = elim (Option-cases c.name) [
    | inl unnamed ↦ rw (unnamed, unknown_container) (ground (arith, unknown_container_iff known cs))
    | inr (name, named) ↦
        rw (named, unknown_container) (ground (arith, unknown_container_iff known cs))
  ]

  container_mismatch_iff :
      (known : List String) (containers : List (ContainerResources Q))
      → (container_mismatch known containers ≡ none)
        ↔ ((known ≡ []) ⊎ All (λ c. IsKnown known c.name) containers)
  unfolding container_mismatch unknown_container
  container_mismatch_iff [] containers = (λ _. inl refl, λ _. refl)
  container_mismatch_iff (k ∷ ks) [] = (λ _. inr tt, λ _. refl)
  container_mismatch_iff (k ∷ ks) (c ∷ cs) = ground (arith, unknown_container_iff (k ∷ ks) (c ∷ cs))

  module _ (now generation : ℕ) (kind : String) (containers : List (ContainerResources Q))
      (cs : List Condition) where
    -- The type's condition is True after the check of a configuration that was found exactly if
    -- there is no mismatch.
    checked_iff :
        (wtc : WorkloadTypeConfig) (o : Option String)
        → (is_condition_true
              (check_containers now generation kind wtc o cs)
              condition_target_kind_valid
            ≡ true)
          ↔ (o ≡ none)
    unfolding check_containers set_target_kind
    checked_iff wtc none = rw is_condition_true-set_condition (ground arith)
    checked_iff wtc (some name) = rw is_condition_true-set_condition (ground arith)

    config_iff :
        (got : Fetch WorkloadTypeConfig)
        → (is_condition_true
              (check_type_config now generation kind containers got cs)
              condition_target_kind_valid
            ≡ true)
          ↔ ((wtc : WorkloadTypeConfig) × (got ≡ found wtc)
              × ((wtc.spec.known_container_names ≡ [])
                  ⊎ All (λ c. IsKnown wtc.spec.known_container_names c.name) containers))
    unfolding check_type_config set_target_kind
    config_iff (not_found e) =
        rw is_condition_true-set_condition (λ h. ground arith, λ (wtc, h, _). ground arith)
    config_iff (failed e) =
        rw is_condition_true-set_condition (λ h. ground arith, λ (wtc, h, _). ground arith)
    config_iff (found wtc) =
        let checked =
          checked_iff wtc (container_mismatch wtc.spec.known_container_names containers) in
        let matched = container_mismatch_iff wtc.spec.known_container_names containers in
        (
          λ h. (wtc, refl, matched.0 (checked.0 h)),
          λ (wtc', same, h). checked.1 (matched.1 (same_config wtc' same h)),
        )
      where
        same_config :
            (wtc' : WorkloadTypeConfig)
            → found wtc ≡ found wtc'
            → (wtc'.spec.known_container_names ≡ [])
              ⊎ All (λ c. IsKnown wtc'.spec.known_container_names c.name) containers
            → (wtc.spec.known_container_names ≡ [])
              ⊎ All (λ c. IsKnown wtc.spec.known_container_names c.name) containers
        same_config wtc' same h = let e : wtc ≡ wtc' = cc in rw e h

    -- A profile with a target kind gets the condition TargetKindValid as True exactly if the kind's
    -- configuration is found and either it names no containers or every container of the resolved
    -- spec that has a name has one of these.
    pub validate_target_kind_iff :
        (get : String → Fetch WorkloadTypeConfig)
        → (is_condition_true
              (validate_target_kind now generation (some kind) containers get cs)
              condition_target_kind_valid
            ≡ true)
          ↔ ((wtc : WorkloadTypeConfig) × (get kind ≡ found wtc)
              × ((wtc.spec.known_container_names ≡ [])
                  ⊎ All (λ c. IsKnown wtc.spec.known_container_names c.name) containers))
    unfolding validate_target_kind
    validate_target_kind_iff get = config_iff (get kind)
