-- ===== src/Profile/Nodes/Fit.antt =====
-- When a node satisfies a profile.
use wto.Common.{
  String, ◌≡◌, refl, ◌≢◌, ◌↔◌, Bool, true, ◌&&◌, Option, none, some, List, [], ◌∷◌, eq_iff, all,
  All, arith, Option-cases, inl, inr,
}
use wto.Common.Int.{ℤ, ◌≤ℤ◌}
use wto.Common.Map.{Map, lookup}
use wto.Api.{Node, ResourceRequirements, NodePlacement, WorkloadProfileSpec}
use wto.Quantity.{Quantities, IsExact}
use wto.Profile.Nodes.{
  has_label, resolve_spec_resources, fits_allocatable, fits_resources, satisfies_node,
  placement_node, node_satisfies_profile,
}

and_iff : (a b : Bool) → ((a && b) ≡ true) ↔ ((a ≡ true) × (b ≡ true))
and_iff a b = ground arith

all_iff {ℓ κ} :
    {A : Type ℓ} (p : A → Bool) (P : A → Type κ) (xs : List A)
    → ((x : A) → (p x ≡ true) ↔ P x)
    → (all p xs ≡ true) ↔ All P xs
all_iff p P [] h = (λ _. tt, λ _. refl)
all_iff p P (x ∷ xs) h =
    let both = and_iff (p x) (all p xs) in
    (
      λ e. ((h x).0 (both.0 e).0, (all_iff p P xs h).0 (both.0 e).1),
      λ (q, qs). both.1 ((h x).1 q, (all_iff p P xs h).1 qs),
    )

has_label_iff :
    (labels : Map String) (e : String × String)
    → (has_label labels e ≡ true) ↔ (lookup e.0 labels ≡ some e.1)
unfolding has_label
has_label_iff labels (k, v) = elim (Option-cases (lookup k labels)) [
  | inl absent ↦ rw (absent, has_label) (λ h. cc, λ h. cc)
  | inr (w, there) ↦ rw (there, has_label) (ground (arith, eq_iff w v))
]

module _ {Q : Type 0} (ops : Quantities Q) (value : Q → ℤ) where
  -- The node has room for the request; one that lists no cpu or no memory has none of it, and one
  -- that does not list another resource is not asked for it.
  abbrev pub HasRoom : String → Q → Option Q → Type 0
  HasRoom name requested none = (name ≢ "cpu") × (name ≢ "memory")
  HasRoom name requested (some room) = value requested ≤ℤ value room

  abbrev pub HasRoomForAll : Map Q → Option (ResourceRequirements Q) → Type 0
  HasRoomForAll allocatable none = Unit
  HasRoomForAll allocatable (some r) =
      All (λ e. HasRoom e.0 e.1 (lookup e.0 allocatable)) r.requests

  -- The node has the labels, and room for the profile's first resources.
  abbrev pub NodeFits : Node Q → WorkloadProfileSpec Q → Option NodePlacement → Type 0
  NodeFits node resolved none = Unit
  NodeFits node resolved (some placement) =
      All (λ e. lookup e.0 node.labels ≡ some e.1) placement.node_selector
      × HasRoomForAll node.allocatable (resolve_spec_resources resolved)

  module _ (exact : IsExact ops value) where
    fits_allocatable_iff :
        (allocatable : Map Q) (e : String × Q)
        → (fits_allocatable ops allocatable e ≡ true) ↔ HasRoom e.0 e.1 (lookup e.0 allocatable)
    unfolding fits_allocatable
    fits_allocatable_iff allocatable (name, requested) =
        elim (Option-cases (lookup name allocatable)) [
          | inl absent ↦
              rw (absent, fits_allocatable)
                (ground (arith, eq_iff name "cpu", eq_iff name "memory"))
          | inr (room, there) ↦
              rw (there, fits_allocatable)
                (ground (arith, exact.le_of_cmp requested room, exact.cmp_of_le requested room))
        ]

    fits_resources_iff :
        (allocatable : Map Q) (o : Option (ResourceRequirements Q))
        → (fits_resources ops allocatable o ≡ true) ↔ HasRoomForAll allocatable o
    unfolding fits_resources
    fits_resources_iff allocatable none = (λ _. tt, λ _. refl)
    fits_resources_iff allocatable (some r) =
        all_iff (fits_allocatable ops allocatable) _ r.requests (fits_allocatable_iff allocatable)

    satisfies_node_iff :
        (node : Node Q) (resolved : WorkloadProfileSpec Q) (o : Option NodePlacement)
        → (satisfies_node ops node resolved o ≡ true) ↔ NodeFits node resolved o
    unfolding satisfies_node
    satisfies_node_iff node resolved none = (λ _. tt, λ _. refl)
    satisfies_node_iff node resolved (some placement) =
        let labels =
          all_iff (has_label node.labels) _ placement.node_selector (has_label_iff node.labels) in
        let room = fits_resources_iff node.allocatable (resolve_spec_resources resolved) in
        let both =
          and_iff (all (has_label node.labels) placement.node_selector)
            (fits_resources ops node.allocatable (resolve_spec_resources resolved)) in
        (λ e. (labels.0 (both.0 e).0, room.0 (both.0 e).1), λ (l, r). both.1 (labels.1 l, room.1 r))

    -- For exact quantities, a node counts as satisfiable exactly if the profile brings no node
    -- placement, or the node has each label of the placement's selector with its value and room for
    -- each request of the profile's first resources; tolerations and taints do not matter.
    pub node_satisfies_profile_iff :
        (node : Node Q) (resolved : WorkloadProfileSpec Q)
        → (node_satisfies_profile ops node resolved ≡ true)
          ↔ NodeFits node resolved (placement_node ops resolved.placement)
    unfolding node_satisfies_profile
    node_satisfies_profile_iff node resolved =
        satisfies_node_iff node resolved (placement_node ops resolved.placement)
