-- ===== src/Propagation/Registry.antt =====
-- internal/controller/propagation_controller.go: the two maps, RegisterGVK and DeregisterGVK.
pub mod Laws
pub mod Reachable
pub mod Refine
use wto.Common.{String, Bool, true, false, ◌&&◌, Option, none, some, [], ◌∷◌, ◌==◌, if◌then◌else◌}
use wto.Common.Map.{Map, lookup, insert, erase}
use wto.Api.{Arg, Error, wrapped, WorkloadTypeConfigSpec}
use wto.Client.{GroupVersionKind, PropagationClient}

-- watchedGVKs and configSpecs. Both are read and written under one lock.
pub record Registry : Type 0 where
  pub watched_gvks : Map GroupVersionKind
  pub config_specs : Map WorkloadTypeConfigSpec

-- existing == gvk
abbrev pub same_gvk : GroupVersionKind → GroupVersionKind → Bool
same_gvk a b = a.group == b.group && a.version == b.version && a.kind == b.kind

-- `existing, ok := …; ok && existing == gvk`
abbrev pub is_watched : Option GroupVersionKind → GroupVersionKind → Bool
is_watched none gvk = false
is_watched (some existing) gvk = same_gvk existing gvk

-- DeregisterGVK
unfoldable pub deregister_gvk : String → Registry → Registry
deregister_gvk config_name registry = record {
  watched_gvks = erase config_name registry.watched_gvks;
  config_specs = erase config_name registry.config_specs;
}

-- the two writes after a watch that was registered, or its error
abbrev finish_watch :
    {W : Type 0}
    → (GroupVersionKind → String)
    → String
    → GroupVersionKind
    → WorkloadTypeConfigSpec
    → Registry
    → Option Error × W
    → Option Error × (Registry × W)
finish_watch show_gvk config_name gvk spec registry (some e, w) =
    (some (wrapped "registering watch for %s: %w" (Arg.s (show_gvk gvk) ∷ []) e), (registry, w))
finish_watch show_gvk config_name gvk spec registry (none, w) = (
  none,
  (
    record {
      watched_gvks = insert config_name gvk registry.watched_gvks;
      config_specs = insert config_name spec registry.config_specs;
    },
    w,
  ),
)

-- `show_gvk` is GroupVersionKind's String, which the texts of errors use.
module _ {Obj W : Type 0} (client : PropagationClient Obj W)
    (show_gvk : GroupVersionKind → String) where
  -- RegisterGVK
  unfoldable pub register_gvk :
      String
      → GroupVersionKind
      → WorkloadTypeConfigSpec
      → Registry
      → W
      → Option Error × (Registry × W)
  register_gvk config_name gvk spec registry w =
      if is_watched (lookup config_name registry.watched_gvks) gvk
      then (
        none,
        (record registry { config_specs = insert config_name spec registry.config_specs }, w),
      )
      else finish_watch show_gvk config_name gvk spec registry (client.watch config_name gvk w)
