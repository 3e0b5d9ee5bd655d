-- ===== src/Webhook/Inject.antt =====
-- internal/webhook/pod_webhook.go: what the webhook writes into the containers of a pod.
pub mod Resources
pub mod Overrides
pub mod Claims
pub mod Frame
use wto.Webhook.Names.{claim_template_name}
use wto.Common.{
  ℕ, suc, String, Option, none, some, List, [], ◌∷◌, ◌++◌, ◌==◌, is_some, length, modify, ltb, eqb,
  if◌then◌else◌,
}
use wto.Common.Int.{ℤ, pos, negsuc}
use wto.Common.Map.{Map, lookup, insert}
use wto.Common.Text.{concat, show_nat}
use wto.Api.{
  ResourceRequirements, Container, Pod, ContainerResources, ResourceDefaults, DeviceClaim,
  WorkloadProfileSpec,
}

-- containers[i].resources.kind.k
override_path : ℕ → String → String → String
override_path i kind k = concat ("containers[" ∷ show_nat i ∷ "].resources." ∷ kind ∷ "." ∷ k ∷ [])

module _ {Q : Type 0} where
  -- the two loops of resolveResources
  resources_by_name : String → List (ContainerResources Q) → Option (ResourceRequirements Q)
  resources_by_name name [] = none
  resources_by_name name (c ∷ cs) = elim (c.name) [
    | some n ↦ if n == name then some c.resources else resources_by_name name cs
    | none ↦ resources_by_name name cs
  ]

  resources_by_index : ℕ → List (ContainerResources Q) → Option (ResourceRequirements Q)
  resources_by_index index [] = none
  resources_by_index index (c ∷ cs) = elim (c.index) [
    | some (pos i) ↦ if eqb i index then some c.resources else resources_by_index index cs
    | _ ↦ resources_by_index index cs
  ]

  abbrev default_resources : Option (ResourceDefaults Q) → Option (ResourceRequirements Q)
  default_resources none = none
  default_resources (some d) = some d.resources

  -- resolveResources
  unfoldable pub resolve_resources :
      WorkloadProfileSpec Q → String → ℕ → Option (ResourceRequirements Q)
  unfolding resources_by_name resources_by_index
  resolve_resources spec container_name container_index =
      elim (resources_by_name container_name spec.containers) [
        | some r ↦ some r
        | none ↦ elim (resources_by_index container_index spec.containers) [
          | some r ↦ some r
          | none ↦ default_resources spec.defaults
        ]
      ]

  -- `for k, v := range resources.Requests`, and the same loop over the limits
  inject_entries : ℕ → String → Map Q → Map Q → List String → Map Q × List String
  inject_entries i kind [] target overrides = (target, overrides)
  inject_entries i kind ((k, v) ∷ from) target overrides =
      inject_entries i kind from (insert k v target)
        (if is_some (lookup k target) then overrides ++ override_path i kind k ∷ [] else overrides)

  -- the body of the loop over the pod's containers; nil resources are skipped
  inject_resolved :
      Option (ResourceRequirements Q) → ℕ → Container Q → List String → Container Q × List String
  inject_resolved none i container overrides = (container, overrides)
  inject_resolved (some resources) i container overrides =
      let (requests, overrides') =
        inject_entries i "requests" resources.requests container.resources.requests overrides in
      let (limits, overrides'') =
        inject_entries i "limits" resources.limits container.resources.limits overrides' in
      (
        record container {
          resources = record (container.resources) { requests = requests; limits = limits };
        },
        overrides'',
      )

  inject_container :
      WorkloadProfileSpec Q → ℕ → Container Q → List String → Container Q × List String
  unfolding inject_resolved
  inject_container spec i container overrides =
      inject_resolved (resolve_resources spec container.name i) i container overrides

  inject_from :
      WorkloadProfileSpec Q
      → ℕ
      → List (Container Q)
      → List String
      → List (Container Q) × List String
  inject_from spec i [] overrides = ([], overrides)
  inject_from spec i (c ∷ cs) overrides =
      let (c', overrides') = inject_container spec i c overrides in
      let (cs', overrides'') = inject_from spec (suc i) cs overrides' in (c' ∷ cs', overrides'')

  -- injectResources
  unfoldable pub inject_resources : Pod Q → WorkloadProfileSpec Q → Pod Q × List String
  unfolding override_path inject_entries inject_container inject_from
  inject_resources pod spec =
      let (containers, overrides) = inject_from spec 0 pod.containers [] in
      (record pod { containers = containers }, overrides)

  -- the loop over the pod's containers inside injectDRAClaims; 0 where no container has the name
  index_of_name : String → ℕ → List (Container Q) → ℕ
  index_of_name name i [] = 0
  index_of_name name i (c ∷ cs) =
      let later = index_of_name name (suc i) cs in if c.name == name then i else later

  -- the loop over the profile's containers: the first entry with an index or a name decides
  unfoldable pub target_index : List (Container Q) → List (ContainerResources Q) → ℤ
  unfolding index_of_name
  target_index containers [] = pos 0
  target_index containers (c ∷ cs) = elim (c.index) [
    | some i ↦ i
    | none ↦ elim (c.name) [
      | some name ↦ pos (index_of_name name 0 containers)
      | none ↦ target_index containers cs
    ]
  ]

  add_claim : String → Container Q → Container Q
  add_claim name c = record c {
    resources = record (c.resources) { claims = c.resources.claims ++ name ∷ [] };
  }

  -- `none` is the panic of an index below 0, which passes the test against the length
  claim_at : ℤ → String → List (Container Q) → Option (List (Container Q))
  claim_at (pos i) name containers =
      some (if ltb i (length containers) then modify containers i (add_claim name) else containers)
  claim_at (negsuc n) name containers = none

  -- one round of injectDRAClaims
  inject_claim : String → WorkloadProfileSpec Q → DeviceClaim → Pod Q → Option (Pod Q)
  inject_claim profile_name spec claim pod =
      elim (claim_at (target_index pod.containers spec.containers) claim.name pod.containers) [
        | none ↦ none
        | some containers ↦ some (record pod {
          resource_claims =
              pod.resource_claims
              ++ record {
                name = claim.name;
                resource_claim_template_name = some (claim_template_name profile_name claim.name);
              }
                ∷ [];
          containers = containers;
        })
      ]

  inject_claims : String → WorkloadProfileSpec Q → List DeviceClaim → Pod Q → Option (Pod Q)
  inject_claims profile_name spec [] pod = some pod
  inject_claims profile_name spec (claim ∷ claims) pod =
      elim (inject_claim profile_name spec claim pod) [
        | none ↦ none
        | some pod' ↦ inject_claims profile_name spec claims pod'
      ]

  -- injectDRAClaims
  unfoldable pub inject_dra_claims : Pod Q → String → WorkloadProfileSpec Q → Option (Pod Q)
  unfolding target_index add_claim claim_at inject_claim inject_claims
  inject_dra_claims pod profile_name spec = inject_claims profile_name spec spec.device_claims pod
