-- ===== src/Propagation/Registry/Reachable.antt =====
-- The registries that calls of RegisterGVK and DeregisterGVK can make.
use wto.Common.{String, refl, Option, none, some, [], ◌==◌, eq_iff, arith, Bool-cases, inl, inr}
use wto.Common.Map.{lookup}
use wto.Api.{Error, WorkloadTypeConfigSpec}
use wto.Client.{GroupVersionKind, PropagationClient}
use wto.Propagation.Registry.{Registry, deregister_gvk, register_gvk}
use wto.Propagation.Registry.Laws.{
  IsConsistent, Registers, deregister_gvk_lem, register_gvk-Registers,
}

abbrev pub empty_registry : Registry
empty_registry = record { watched_gvks = []; config_specs = [] }

-- The registries after any calls, whatever the watches do.
pub data Reachable {Obj W : Type 0} (client : PropagationClient Obj W)
    (show_gvk : GroupVersionKind → String) : Registry → Type 0 where
  fresh : Reachable client show_gvk empty_registry
  registered :
      {registry : Registry}
      → Reachable client show_gvk registry
      → (config_name : String) (gvk : GroupVersionKind) (spec : WorkloadTypeConfigSpec) (w : W)
      → Reachable client show_gvk (register_gvk client show_gvk config_name gvk spec registry w).1.0
  deregistered :
      {registry : Registry}
      → Reachable client show_gvk registry
      → (config_name : String) → Reachable client show_gvk (deregister_gvk config_name registry)

pub deregister_gvk-IsConsistent :
    (config_name : String) (registry : Registry)
    → IsConsistent registry
    → IsConsistent (deregister_gvk config_name registry)
deregister_gvk-IsConsistent config_name registry same name =
    ground (arith, same name, deregister_gvk_lem config_name name registry)

pub Registers-IsConsistent :
    {W : Type 0} (config_name : String) (gvk : GroupVersionKind) (spec : WorkloadTypeConfigSpec)
    (registry : Registry) (out : Option Error × (Registry × W))
    → IsConsistent registry
    → Registers config_name gvk spec registry out
    → IsConsistent out.1.0
Registers-IsConsistent config_name gvk spec registry (some e, (registry', w)) same kept name =
    rw kept (same name)
Registers-IsConsistent config_name gvk spec registry (none, (registry', w)) same (here, others)
      name =
    elim (Bool-cases (config_name == name)) [
      | inl e ↦ ground (arith, eq_iff config_name name, here)
      | inr other ↦ rw ((others name other).0, (others name other).1) (same name)
    ]

module _ {Obj W : Type 0} (client : PropagationClient Obj W)
    (show_gvk : GroupVersionKind → String) where
  -- In every registry that calls can make, a name is in both maps or in neither.
  pub Reachable-IsConsistent :
      {registry : Registry} → Reachable client show_gvk registry → IsConsistent registry
  unfolding lookup
  Reachable-IsConsistent fresh name = refl
  Reachable-IsConsistent (registered r config_name gvk spec w) name =
      Registers-IsConsistent config_name gvk spec _ _ (Reachable-IsConsistent r)
        (register_gvk-Registers client show_gvk config_name gvk spec _ w).0 name
  Reachable-IsConsistent (deregistered r config_name) name =
      deregister_gvk-IsConsistent config_name _ (Reachable-IsConsistent r) name
