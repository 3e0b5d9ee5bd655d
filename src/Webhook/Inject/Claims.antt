-- ===== src/Webhook/Inject/Claims.antt =====
-- What injectDRAClaims adds to the pod, and when it panics.
use mathlib.Core.List.{append_assoc, append-nil}
use wto.Common.{
  ℕ, zero, suc, ◌≤◌, String, ◌≡◌, refl, sym, ◌∙◌, ap, none, some, List, [], ◌∷◌, ◌++◌, map, ltb,
  All, length, modify, arith, Bool-cases, Option-cases, inl, inr, if◌then◌else◌,
}
use wto.Common.Int.{ℤ, pos, negsuc}
use wto.Api.{Container, Pod, PodResourceClaim, ContainerResources, DeviceClaim, WorkloadProfileSpec}
use wto.Webhook.Names.{claim_template_name}
use wto.Webhook.Inject.{
  index_of_name, target_index, add_claim, claim_at, inject_claim, inject_claims, inject_dra_claims,
}

modify-modify {ℓ} :
    {A : Type ℓ} (xs : List A) (i : ℕ) (f g : A → A)
    → modify (modify xs i f) i g ≡ modify xs i (λ x. g (f x))
modify-modify [] i f g = refl
modify-modify (x ∷ xs) zero f g = refl
modify-modify (x ∷ xs) (suc i) f g = ap (λ l. x ∷ l) (modify-modify xs i f g)

modify-id {ℓ} :
    {A : Type ℓ} (xs : List A) (i : ℕ) (f : A → A) → ((x : A) → f x ≡ x) → modify xs i f ≡ xs
modify-id [] i f h = refl
modify-id (x ∷ xs) zero f h = rw h
modify-id (x ∷ xs) (suc i) f h = ap (λ l. x ∷ l) (modify-id xs i f h)

modify_out {ℓ} : {A : Type ℓ} (xs : List A) (i : ℕ) (f : A → A) → length xs ≤ i → modify xs i f ≡ xs
modify_out [] i f h = refl
modify_out (x ∷ xs) zero f h = absurd (omega arith)
modify_out (x ∷ xs) (suc i) f h = ap (λ l. x ∷ l) (modify_out xs i f (omega arith))

-- The loop's test against the length is the one that `modify` makes.
modify_in_range {ℓ} :
    {A : Type ℓ} (xs : List A) (i : ℕ) (f : A → A)
    → (if ltb i (length xs) then modify xs i f else xs) ≡ modify xs i f
modify_in_range xs i f = elim (Bool-cases (ltb i (length xs))) [
  | inl inside ↦ rw inside
  | inr outside ↦ rw outside (sym (modify_out xs i f (ground arith)))
]

-- The reference to the ResourceClaimTemplate that the profile controller makes for a claim.
abbrev pub claim_ref : String → DeviceClaim → PodResourceClaim
claim_ref profile_name claim = record {
  name = claim.name;
  resource_claim_template_name = some (claim_template_name profile_name claim.name);
}

module _ {Q : Type 0} where
  abbrev pub add_claims : List String → Container Q → Container Q
  add_claims names c = record c {
    resources = record (c.resources) { claims = c.resources.claims ++ names };
  }

  -- Claims change no name, so every round finds the same target.
  index_of_name-modify :
      (name claim : String) (i t : ℕ) (cs : List (Container Q))
      → index_of_name name i (modify cs t (add_claim claim)) ≡ index_of_name name i cs
  unfolding index_of_name add_claim
  index_of_name-modify name claim i t [] = refl
  index_of_name-modify name claim i zero (c ∷ cs) = refl
  index_of_name-modify name claim i (suc t) (c ∷ cs) =
      rw (index_of_name-modify name claim (suc i) t cs)

  target_index-modify :
      (claim : String) (t : ℕ) (pcs : List (Container Q)) (cs : List (ContainerResources Q))
      → target_index (modify pcs t (add_claim claim)) cs ≡ target_index pcs cs
  unfolding target_index
  target_index-modify claim t pcs [] = refl
  target_index-modify claim t pcs (c ∷ cs) = elim (Option-cases c.name) [
    | inl no_name ↦ ground (arith, no_name, target_index-modify claim t pcs cs)
    | inr (n, has_name) ↦ ground (arith, has_name, index_of_name-modify n claim 0 t pcs)
  ]

  -- What the pod holds after the claims: a reference to each claim's template, and the names of
  -- all claims in the container at the target.
  abbrev pub claimed : String → List DeviceClaim → ℕ → Pod Q → Pod Q
  claimed profile_name claims t pod = record pod {
    resource_claims = pod.resource_claims ++ map (claim_ref profile_name) claims;
    containers = modify pod.containers t (add_claims (map (λ c. c.name) claims));
  }

  inject_claim_lem :
      (profile_name : String) (spec : WorkloadProfileSpec Q) (claim : DeviceClaim) (pod : Pod Q)
      (t : ℕ)
      → target_index pod.containers spec.containers ≡ pos t
      → inject_claim profile_name spec claim pod ≡ some (claimed profile_name (claim ∷ []) t pod)
  unfolding inject_claim claim_at add_claim
  inject_claim_lem profile_name spec claim pod t h =
      rw (h, inject_claim, claim_at) (rw modify_in_range)

  -- The references do not depend on the target.
  inject_claim-resource_claims :
      (profile_name : String) (spec : WorkloadProfileSpec Q) (claim : DeviceClaim)
      (pod pod' : Pod Q)
      → inject_claim profile_name spec claim pod ≡ some pod'
      → pod'.resource_claims ≡ pod.resource_claims ++ claim_ref profile_name claim ∷ []
  unfolding inject_claim
  inject_claim-resource_claims profile_name spec claim pod pod' h = ground arith

  inject_claims-resource_claims :
      (profile_name : String) (spec : WorkloadProfileSpec Q) (claims : List DeviceClaim)
      (pod pod' : Pod Q)
      → inject_claims profile_name spec claims pod ≡ some pod'
      → pod'.resource_claims ≡ pod.resource_claims ++ map (claim_ref profile_name) claims
  unfolding inject_claims
  inject_claims-resource_claims profile_name spec [] pod pod' h =
      ground (arith, append-nil pod.resource_claims)
  inject_claims-resource_claims profile_name spec (claim ∷ claims) pod pod' h =
      elim (Option-cases (inject_claim profile_name spec claim pod)) [
        | inl panic ↦ absurd (ground (arith, panic))
        | inr (mid, step) ↦
            inject_claims-resource_claims profile_name spec claims mid pod'
              (rw (step, inject_claims) at h)
            ∙ rw (inject_claim-resource_claims profile_name spec claim pod mid step)
                (simp append_assoc)
      ]

  -- A pod that gets its claims references the template of each, after the claims that it had.
  pub inject_dra_claims-resource_claims :
      (profile_name : String) (spec : WorkloadProfileSpec Q) (pod pod' : Pod Q)
      → inject_dra_claims pod profile_name spec ≡ some pod'
      → pod'.resource_claims
        ≡ pod.resource_claims ++ map (claim_ref profile_name) spec.device_claims
  unfolding inject_dra_claims
  inject_dra_claims-resource_claims profile_name spec pod pod' h =
      inject_claims-resource_claims profile_name spec spec.device_claims pod pod' h

  claimed_nil : (profile_name : String) (t : ℕ) (pod : Pod Q) → claimed profile_name [] t pod ≡ pod
  claimed_nil profile_name t pod =
      rw (append-nil, modify-id pod.containers t (add_claims []) (λ c. rw append-nil))

  claimed_cons :
      (profile_name : String) (claim : DeviceClaim) (claims : List DeviceClaim) (t : ℕ)
      (pod : Pod Q)
      → claimed profile_name claims t (claimed profile_name (claim ∷ []) t pod)
        ≡ claimed profile_name (claim ∷ claims) t pod
  claimed_cons profile_name claim claims t pod = rw modify-modify (simp append_assoc)

  inject_claims_lem :
      (profile_name : String) (spec : WorkloadProfileSpec Q) (claims : List DeviceClaim)
      (pod : Pod Q) (t : ℕ)
      → target_index pod.containers spec.containers ≡ pos t
      → inject_claims profile_name spec claims pod ≡ some (claimed profile_name claims t pod)
  unfolding inject_claims
  inject_claims_lem profile_name spec [] pod t h = ap some (sym (claimed_nil profile_name t pod))
  inject_claims_lem profile_name spec (claim ∷ claims) pod t h =
      rw (inject_claim_lem profile_name spec claim pod t h, inject_claims)
        (inject_claims_lem profile_name spec claims (claimed profile_name (claim ∷ []) t pod) t (
            unfold add_claim in
            (target_index-modify claim.name t pod.containers spec.containers ∙ h))
          ∙ ap some (claimed_cons profile_name claim claims t pod))

  -- Where the first entry of the profile that has an index or a name points at a container that
  -- is not below 0, each device claim is referenced by its ResourceClaimTemplate, after the
  -- claims of the pod, the container at that index gets all claims, and nothing else changes. An
  -- index past the last container gives the claims to no container.
  pub inject_dra_claims_lem :
      (pod : Pod Q) (profile_name : String) (spec : WorkloadProfileSpec Q) (t : ℕ)
      → target_index pod.containers spec.containers ≡ pos t
      → inject_dra_claims pod profile_name spec
        ≡ some (claimed profile_name spec.device_claims t pod)
  unfolding inject_dra_claims
  inject_dra_claims_lem pod profile_name spec t h =
      inject_claims_lem profile_name spec spec.device_claims pod t h

  -- Entries with neither index nor name are passed over.
  target_index-first :
      (pcs : List (Container Q)) (before after : List (ContainerResources Q))
      (e : ContainerResources Q) (i : ℤ)
      → All (λ c. (c.index ≡ none) × (c.name ≡ none)) before
      → e.index ≡ some i
      → target_index pcs (before ++ e ∷ after) ≡ i
  unfolding target_index
  target_index-first pcs [] after e i h indexed = rw (indexed, target_index)
  target_index-first pcs (c ∷ before) after e i ((no_index, no_name), h) indexed =
      ground (arith, no_index, no_name, target_index-first pcs before after e i h indexed)

  -- A profile with a device claim whose first entry with an index or a name has an index below 0
  -- makes the webhook panic, whatever the pod.
  pub inject_dra_claims_panics :
      (pod : Pod Q) (profile_name : String) (spec : WorkloadProfileSpec Q) (claim : DeviceClaim)
      (claims : List DeviceClaim) (before after : List (ContainerResources Q))
      (e : ContainerResources Q) (n : ℕ)
      → spec.device_claims ≡ claim ∷ claims
      → spec.containers ≡ before ++ e ∷ after
      → All (λ c. (c.index ≡ none) × (c.name ≡ none)) before
      → e.index ≡ some (negsuc n)
      → inject_dra_claims pod profile_name spec ≡ none
  unfolding inject_dra_claims inject_claims inject_claim claim_at
  inject_dra_claims_panics pod profile_name spec claim claims before after e n dc cs h indexed =
      ground (
        arith,
        dc,
        ap (target_index pod.containers) cs,
        target_index-first pod.containers before after e (negsuc n) h indexed,
      )
