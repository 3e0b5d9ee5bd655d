-- ===== src/Webhook/Inject/Overrides.antt =====
-- Which overrides injectResources reports.
use mathlib.Core.List.{append_assoc, append-nil}
use wto.Common.{
  ℕ, suc, String, ◌≡◌, refl, sym, ◌∙◌, Bool, true, false, Option, none, some, List, [], ◌∷◌, ◌++◌,
  map, eq_iff, is_some, keep_if, arith, if◌then◌else◌,
}
use wto.Common.Map.{Map, lookup, insert, HasUniqueKeys, lookup-insert}
use wto.Api.{ResourceRequirements, Container, Pod, WorkloadProfileSpec}
use wto.Webhook.Inject.{
  resolve_resources, override_path, inject_entries, inject_resolved, inject_container, inject_from,
  inject_resources,
}

append_if :
    (b : Bool) (s : String) (os cs : List String)
    → (if b then os ++ s ∷ [] else os) ++ cs ≡ os ++ (if b then s ∷ cs else cs)
append_if true s os cs = append_assoc os (s ∷ []) cs
append_if false s os cs = refl

module _ {Q : Type 0} where
  -- The profile's keys that the container had set before, by the path that is reported.
  pub clashes : ℕ → String → Map Q → Map Q → List String
  clashes i kind from own =
      map (λ e. override_path i kind e.0) (keep_if (λ e. is_some (lookup e.0 own)) from)

  pub container_clashes : ℕ → Option (ResourceRequirements Q) → Container Q → List String
  container_clashes i none c = []
  container_clashes i (some r) c =
      clashes i "requests" r.requests c.resources.requests
      ++ clashes i "limits" r.limits c.resources.limits

  pub pod_clashes : WorkloadProfileSpec Q → ℕ → List (Container Q) → List String
  pod_clashes spec i [] = []
  pod_clashes spec i (c ∷ cs) =
      container_clashes i (resolve_resources spec c.name i) c ++ pod_clashes spec (suc i) cs

  -- The profile's maps have no key twice.
  abbrev pub HasUniqueResources : Option (ResourceRequirements Q) → Type 0
  HasUniqueResources none = Unit
  HasUniqueResources (some r) = HasUniqueKeys r.requests × HasUniqueKeys r.limits

  -- A key that the rest of the range does not bring does not change what the rest clashes with.
  clashes-insert :
      (i : ℕ) (kind k : String) (v : Q) (from own : Map Q)
      → lookup k from ≡ none
      → clashes i kind from (insert k v own) ≡ clashes i kind from own
  unfolding clashes keep_if lookup
  clashes-insert i kind k v [] own fresh = refl
  clashes-insert i kind k v ((j, w) ∷ from) own fresh =
      ground
        (arith, clashes-insert i kind k v from own, lookup-insert k j v own, eq_iff k j, eq_iff j k)

  clashes-cons :
      (i : ℕ) (kind k : String) (v : Q) (from own : Map Q)
      → clashes i kind ((k, v) ∷ from) own ≡ (
          if is_some (lookup k own)
          then override_path i kind k ∷ clashes i kind from own
          else clashes i kind from own)
  unfolding clashes keep_if
  clashes-cons i kind k v from own = ground arith

  clashes-nil : (i : ℕ) (kind : String) (own : Map Q) → clashes i kind [] own ≡ []
  unfolding clashes keep_if
  clashes-nil i kind own = refl

  inject_entries_overrides :
      (i : ℕ) (kind : String) (from target : Map Q) (overrides : List String)
      → HasUniqueKeys from
      → (inject_entries i kind from target overrides).1 ≡ overrides ++ clashes i kind from target
  unfolding inject_entries
  inject_entries_overrides i kind [] target overrides u = rw clashes-nil (sym (append-nil _))
  inject_entries_overrides i kind ((k, v) ∷ from) target overrides (fresh, u) =
      inject_entries_overrides i kind from (insert k v target) _ u
      ∙ rw (clashes-insert i kind k v from target fresh, clashes-cons)
          (append_if (is_some (lookup k target)) (override_path i kind k) overrides _)

  inject_resolved_overrides :
      (r : Option (ResourceRequirements Q)) (i : ℕ) (c : Container Q) (overrides : List String)
      → HasUniqueResources r
      → (inject_resolved r i c overrides).1 ≡ overrides ++ container_clashes i r c
  unfolding inject_resolved container_clashes
  inject_resolved_overrides none i c overrides u = sym (append-nil _)
  inject_resolved_overrides (some r) i c overrides (u, u') =
      inject_entries_overrides i "limits" r.limits c.resources.limits _ u'
      ∙ rw (inject_entries_overrides i "requests" r.requests c.resources.requests overrides u)
          (append_assoc overrides _ _)

  inject_from_overrides :
      (spec : WorkloadProfileSpec Q) (i : ℕ) (cs : List (Container Q)) (overrides : List String)
      → ((name : String) (index : ℕ) → HasUniqueResources (resolve_resources spec name index))
      → (inject_from spec i cs overrides).1 ≡ overrides ++ pod_clashes spec i cs
  unfolding inject_from pod_clashes inject_container
  inject_from_overrides spec i [] overrides u = sym (append-nil _)
  inject_from_overrides spec i (c ∷ cs) overrides u =
      inject_from_overrides spec (suc i) cs (inject_container spec i c overrides).1 u
      ∙ rw (inject_resolved_overrides (resolve_resources spec c.name i) i c overrides (u c.name i))
          (append_assoc overrides _ _)

  -- The overrides that are reported are exactly the profile's requests and limits whose resource
  -- the container of the incoming pod had set, container by container in the order of the pod,
  -- each by its path, if no map of the profile has a key twice.
  pub inject_resources_overrides :
      (pod : Pod Q) (spec : WorkloadProfileSpec Q)
      → ((name : String) (index : ℕ) → HasUniqueResources (resolve_resources spec name index))
      → (inject_resources pod spec).1 ≡ pod_clashes spec 0 pod.containers
  unfolding inject_resources
  inject_resources_overrides pod spec u = inject_from_overrides spec 0 pod.containers [] u
