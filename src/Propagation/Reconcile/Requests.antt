-- ===== src/Propagation/Reconcile/Requests.antt =====
-- From an event on an object to the reconcile of that object.
use wto.Common.{String, ◌≡◌, refl, true, false, [], ◌∷◌}
use wto.Common.Text.{concat, NoSlash, split_slash-append}
use wto.Api.{NamespacedName, WorkloadTypeConfigSpec}
use wto.Client.{GroupVersionKind, Unstructured, PropagationClient}
use wto.Propagation.Registry.{Registry}
use wto.Propagation.Registry.Laws.{IsRegistered}
use wto.Propagation.Reconcile.{
  has_profile, map_fn, propagate_fetched, unless_native, with_config, with_parts, reconcile,
}

-- The key of an object.
abbrev pub object_key : {Obj : Type 0} → Unstructured Obj → Obj → NamespacedName
object_key access obj = record { namespace = access.namespace obj; name = access.name obj }

module _ {Obj W : Type 0} (access : Unstructured Obj) (client : PropagationClient Obj W) where
  -- The request that a watch makes for an object that names a profile leads back to that object:
  -- where the configuration's name has no slash and is registered, with propagation that is not
  -- native, there is one request, and its reconcile reads the object of the registered kind with
  -- the object's own namespace and name, and propagates by the registered spec.
  pub reconcile-map_fn :
      (registry : Registry) (config_name : String) (gvk : GroupVersionKind)
      (spec : WorkloadTypeConfigSpec) (obj : Obj) (w : W)
      → NoSlash config_name
      → IsRegistered config_name gvk spec registry
      → spec.native_propagation ≡ false
      → has_profile access obj ≡ true
      → (req : NamespacedName) × (map_fn access config_name obj ≡ req ∷ [])
        × (reconcile access client registry req w
            ≡ propagate_fetched access client spec
                (client.get_object gvk (object_key access obj) w)
                w)
  unfolding map_fn reconcile with_parts with_config unless_native
  reconcile-map_fn registry config_name gvk spec obj w no_slash (watched, configured) not_native
        named =
      (
        request,
        rw named refl,
        rw (split_slash-append config_name (access.name obj) no_slash)
            (rw (watched, configured) (rw not_native refl)),
      )
    where
      request : NamespacedName
      request = record {
        namespace = access.namespace obj;
        name = concat (config_name ∷ "/" ∷ access.name obj ∷ []);
      }
