-- ===== src/Propagation/Registry/Laws.antt =====
-- What is registered after RegisterGVK and DeregisterGVK.
use wto.Common.{
  String, ◌≡◌, refl, ap, true, false, Option, none, some, ◌==◌, eq_iff, arith, is_some, Bool-cases,
  inl, inr, if◌then◌else◌,
}
use wto.Common.Map.{Map, lookup, insert, lookup-insert, lookup-erase}
use wto.Api.{Error, WorkloadTypeConfigSpec}
use wto.Client.{GroupVersionKind, PropagationClient}
use wto.Propagation.Registry.{
  Registry, same_gvk, is_watched, deregister_gvk, finish_watch, register_gvk,
}

-- A name is in both maps or in neither.
abbrev pub IsConsistent : Registry → Type 0
IsConsistent registry =
    (name : String)
    → is_some (lookup name registry.watched_gvks) ≡ is_some (lookup name registry.config_specs)

same_gvk-eq : (a b : GroupVersionKind) → same_gvk a b ≡ true → a ≡ b
same_gvk-eq a b h =
    grind (arith, eq_iff a.group b.group, eq_iff a.version b.version, eq_iff a.kind b.kind)

-- A watched kind is the one that is registered.
is_watched-lookup :
    (o : Option GroupVersionKind) (gvk : GroupVersionKind) → is_watched o gvk ≡ true → o ≡ some gvk
is_watched-lookup none gvk h = cc
is_watched-lookup (some existing) gvk h = ap some (same_gvk-eq existing gvk h)

-- After DeregisterGVK a name is in neither map if it is the one taken out, and otherwise reads as
-- before in both.
pub deregister_gvk_lem :
    (config_name name : String) (registry : Registry)
    → (lookup name (deregister_gvk config_name registry).watched_gvks
        ≡ (if config_name == name then none else lookup name registry.watched_gvks))
      × (lookup name (deregister_gvk config_name registry).config_specs
          ≡ (if config_name == name then none else lookup name registry.config_specs))
unfolding deregister_gvk
deregister_gvk_lem config_name name registry = (
  lookup-erase config_name name registry.watched_gvks,
  lookup-erase config_name name registry.config_specs,
)

-- What is registered for a name: its kind and its spec.
abbrev pub IsRegistered : String → GroupVersionKind → WorkloadTypeConfigSpec → Registry → Type 0
IsRegistered name gvk spec registry =
    (lookup name registry.watched_gvks ≡ some gvk) × (lookup name registry.config_specs ≡ some spec)

-- What RegisterGVK may have done: nothing, with an error, or it has registered the name alone.
abbrev pub Registers :
    {W : Type 0}
    → String
    → GroupVersionKind
    → WorkloadTypeConfigSpec
    → Registry
    → Option Error × (Registry × W)
    → Type 0
Registers config_name gvk spec registry (some e, (registry', w)) = registry' ≡ registry
Registers config_name gvk spec registry (none, (registry', w)) =
    IsRegistered config_name gvk spec registry'
    × ((name : String)
        → (config_name == name) ≡ false
        → (lookup name registry'.watched_gvks ≡ lookup name registry.watched_gvks)
          × (lookup name registry'.config_specs ≡ lookup name registry.config_specs))

lookup-insert_same {ℓ} :
    {V : Type ℓ} (k : String) (v : V) (m : Map V) → lookup k (insert k v m) ≡ some v
lookup-insert_same k v m = rw lookup-insert (ground (arith, eq_iff k k))

lookup-insert_other {ℓ} :
    {V : Type ℓ} (k j : String) (v : V) (m : Map V)
    → (k == j) ≡ false
    → lookup j (insert k v m) ≡ lookup j m
lookup-insert_other k j v m h = rw (lookup-insert, h) refl

module _ {Obj W : Type 0} (client : PropagationClient Obj W)
    (show_gvk : GroupVersionKind → String) where
  pub finish_watch-Registers :
      (config_name : String) (gvk : GroupVersionKind) (spec : WorkloadTypeConfigSpec)
      (registry : Registry) (r : Option Error × W)
      → Registers config_name gvk spec registry
          (finish_watch show_gvk config_name gvk spec registry r)
  finish_watch-Registers config_name gvk spec registry (some e, w) = refl
  finish_watch-Registers config_name gvk spec registry (none, w) = (
    (
      lookup-insert_same config_name gvk registry.watched_gvks,
      lookup-insert_same config_name spec registry.config_specs,
    ),
    λ name other. (
      lookup-insert_other config_name name gvk registry.watched_gvks other,
      lookup-insert_other config_name name spec registry.config_specs other,
    ),
  )

  -- RegisterGVK ends with an error and leaves the registry as it is, or it registers the kind and
  -- the spec for the name, and every other name reads as before. A name whose kind is the one that
  -- is watched never ends with an error.
  pub register_gvk-Registers :
      (config_name : String) (gvk : GroupVersionKind) (spec : WorkloadTypeConfigSpec)
      (registry : Registry) (w : W)
      → Registers config_name gvk spec registry
          (register_gvk client show_gvk config_name gvk spec registry w)
        × (lookup config_name registry.watched_gvks ≡ some gvk
            → (register_gvk client show_gvk config_name gvk spec registry w).0 ≡ none)
  unfolding register_gvk
  register_gvk-Registers config_name gvk spec registry w =
      elim (Bool-cases (is_watched (lookup config_name registry.watched_gvks) gvk)) [
        | inl watched ↦ rw watched (
          (
            (
              is_watched-lookup (lookup config_name registry.watched_gvks) gvk watched,
              lookup-insert_same config_name spec registry.config_specs,
            ),
            λ name other.
                (refl, lookup-insert_other config_name name spec registry.config_specs other),
          ),
          λ there. refl,
        )
        | inr fresh ↦ rw fresh (
          finish_watch-Registers config_name gvk spec registry (client.watch config_name gvk w),
          λ there. ground (
            arith,
            there,
            fresh,
            eq_iff gvk.group gvk.group,
            eq_iff gvk.version gvk.version,
            eq_iff gvk.kind gvk.kind,
          ),
        )
      ]
