-- ===== src/Webhook/Inject/Resources.antt =====
-- What injectResources leaves in each container, and which overrides it reports.
use mathlib.Core.Option
use native.Mathlib.Nat.{add-zero, zero-add}
use wto.Common.{
  ℕ, zero, suc, ◌+◌, String, ◌≡◌, refl, ◌≢◌, ◌∙◌, ap, Option, none, some, List, [], ◌∷◌, ◌++◌,
  eq_refl, eq_iff, get_elem?, All, arith, Option-cases, inl, inr,
}
use wto.Common.Int.{pos}
use wto.Common.Map.{Map, lookup, insert, insert_all, HasUniqueKeys, or_else, lookup-insert_all}
use wto.Api.{ResourceRequirements, Container, Pod, ContainerResources, WorkloadProfileSpec}
use wto.Webhook.Inject.{
  resources_by_name, resources_by_index, resolve_resources, inject_entries, inject_resolved,
  inject_container, inject_from, inject_resources,
}

module _ {Q : Type 0} where
  resources_by_name_found :
      (before after : List (ContainerResources Q)) (e : ContainerResources Q) (name : String)
      → e.name ≡ some name
      → All (λ c. c.name ≢ some name) before
      → resources_by_name name (before ++ e ∷ after) ≡ some e.resources
  unfolding resources_by_name
  resources_by_name_found [] after e name named others = rw named (rw (eq_refl name))
  resources_by_name_found (c ∷ before) after e name named (other, others) =
      elim (Option-cases c.name) [
        | inl no_name ↦ rw no_name (resources_by_name_found before after e name named others)
        | inr (n, has_name) ↦ rw has_name (
            ground (
              arith,
              resources_by_name_found before after e name named others,
              eq_iff n name,
              has_name,
              other,
            ))
      ]

  resources_by_name_missed :
      (cs : List (ContainerResources Q)) (name : String)
      → All (λ c. c.name ≢ some name) cs
      → resources_by_name name cs ≡ none
  unfolding resources_by_name
  resources_by_name_missed [] name others = refl
  resources_by_name_missed (c ∷ cs) name (other, others) = elim (Option-cases c.name) [
    | inl no_name ↦ rw no_name (resources_by_name_missed cs name others)
    | inr (n, has_name) ↦
        rw has_name
          (ground (arith, resources_by_name_missed cs name others, eq_iff n name, has_name, other))
  ]

  resources_by_index_found :
      (before after : List (ContainerResources Q)) (e : ContainerResources Q) (index : ℕ)
      → e.index ≡ some (pos index)
      → All (λ c. c.index ≢ some (pos index)) before
      → resources_by_index index (before ++ e ∷ after) ≡ some e.resources
  unfolding resources_by_index
  resources_by_index_found [] after e index indexed others = rw indexed (ground arith)
  resources_by_index_found (c ∷ before) after e index indexed (other, others) =
      ground (arith, resources_by_index_found before after e index indexed others)

  -- The first entry that names the container wins over every index and over the defaults.
  pub resolve_resources_by_name :
      (spec : WorkloadProfileSpec Q) (before after : List (ContainerResources Q))
      (e : ContainerResources Q) (name : String) (index : ℕ)
      → spec.containers ≡ before ++ e ∷ after
      → e.name ≡ some name
      → All (λ c. c.name ≢ some name) before
      → resolve_resources spec name index ≡ some e.resources
  unfolding resolve_resources
  resolve_resources_by_name spec before after e name index split named others = ground (
    arith,
    ap (resources_by_name name) split,
    resources_by_name_found before after e name named others,
  )

  -- Where no entry names the container, the first entry with its index wins over the defaults.
  pub resolve_resources_by_index :
      (spec : WorkloadProfileSpec Q) (before after : List (ContainerResources Q))
      (e : ContainerResources Q) (name : String) (index : ℕ)
      → spec.containers ≡ before ++ e ∷ after
      → All (λ c. c.name ≢ some name) spec.containers
      → e.index ≡ some (pos index)
      → All (λ c. c.index ≢ some (pos index)) before
      → resolve_resources spec name index ≡ some e.resources
  unfolding resolve_resources
  resolve_resources_by_index spec before after e name index split unnamed indexed others = ground (
    arith,
    resources_by_name_missed spec.containers name unnamed,
    ap (resources_by_index index) split,
    resources_by_index_found before after e index indexed others,
  )

  -- One of the two loops over a ResourceList: its map is the profile's over the container's.
  inject_entries_map :
      (i : ℕ) (kind : String) (from target : Map Q) (overrides : List String)
      → (inject_entries i kind from target overrides).0 ≡ insert_all from target
  unfolding inject_entries insert_all
  inject_entries_map i kind [] target overrides = refl
  inject_entries_map i kind ((k, v) ∷ from) target overrides =
      inject_entries_map i kind from (insert k v target) _

  -- What a container is given: the profile's entries over its own.
  abbrev pub injected : Option (ResourceRequirements Q) → Container Q → Container Q
  injected none c = c
  injected (some r) c = record c {
    resources = record (c.resources) {
      requests = insert_all r.requests c.resources.requests;
      limits = insert_all r.limits c.resources.limits;
    };
  }

  inject_resolved_lem :
      (r : Option (ResourceRequirements Q)) (i : ℕ) (c : Container Q) (overrides : List String)
      → (inject_resolved r i c overrides).0 ≡ injected r c
  unfolding inject_resolved
  inject_resolved_lem none i c overrides = refl
  inject_resolved_lem (some r) i c overrides = rw (inject_entries_map, inject_entries_map)

  inject_container_lem :
      (spec : WorkloadProfileSpec Q) (i : ℕ) (c : Container Q) (overrides : List String)
      → (inject_container spec i c overrides).0 ≡ injected (resolve_resources spec c.name i) c
  unfolding inject_container
  inject_container_lem spec i c overrides =
      inject_resolved_lem (resolve_resources spec c.name i) i c overrides

  inject_from_at :
      (spec : WorkloadProfileSpec Q) (i j : ℕ) (cs : List (Container Q)) (overrides : List String)
      → get_elem? (inject_from spec i cs overrides).0 j
        ≡ Option.map (λ c. injected (resolve_resources spec c.name (i + j)) c) (get_elem? cs j)
  unfolding inject_from
  inject_from_at spec i j [] overrides = refl
  inject_from_at spec i zero (c ∷ cs) overrides = rw inject_container_lem (rw add-zero)
  inject_from_at spec i (suc j) (c ∷ cs) overrides =
      inject_from_at spec (suc i) j cs (inject_container spec i c overrides).1
      ∙ ap
          (λ n.
            Option.map (λ (c : Container Q). injected (resolve_resources spec c.name n) c)
              (get_elem? cs j))
          (omega arith)

  -- The container at every index of the pod is the pod's container there, with the entries that
  -- the profile resolves for its name and index put over its own. None is added or dropped.
  pub inject_resources_at :
      (pod : Pod Q) (spec : WorkloadProfileSpec Q) (i : ℕ)
      → get_elem? (inject_resources pod spec).0.containers i
        ≡ Option.map
            (λ c. injected (resolve_resources spec c.name i) c)
            (get_elem? pod.containers i)
  unfolding inject_resources
  inject_resources_at pod spec i = rw inject_from_at (rw zero-add)

  -- The container at an index for which the profile has resources, with no key twice: a resource
  -- has the profile's request and limit where the profile gives one, and the container's own where
  -- it gives none. The container keeps its name and its claims.
  pub inject_resources-lookup :
      (pod : Pod Q) (spec : WorkloadProfileSpec Q) (i : ℕ) (c : Container Q)
      (r : ResourceRequirements Q)
      → get_elem? pod.containers i ≡ some c
      → resolve_resources spec c.name i ≡ some r
      → HasUniqueKeys r.requests
      → HasUniqueKeys r.limits
      → (c' : Container Q) × (get_elem? (inject_resources pod spec).0.containers i ≡ some c')
        × ((k : String)
            → lookup k c'.resources.requests
              ≡ or_else (lookup k r.requests) (lookup k c.resources.requests))
        × ((k : String)
            → lookup k c'.resources.limits
              ≡ or_else (lookup k r.limits) (lookup k c.resources.limits))
        × (c'.name ≡ c.name)
        × (c'.resources.claims ≡ c.resources.claims)
  inject_resources-lookup pod spec i c r at resolved unique unique' = (
    injected (some r) c,
    inject_resources_at pod spec i ∙ rw at (rw resolved),
    λ k. lookup-insert_all k r.requests c.resources.requests unique,
    λ k. lookup-insert_all k r.limits c.resources.limits unique',
    refl,
    refl,
  )
