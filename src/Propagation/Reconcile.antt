-- ===== src/Propagation/Reconcile.antt =====
-- internal/controller/propagation_controller.go: the handler and the filter of a watch, and
-- Reconcile.
pub mod Requests
pub mod Writes
pub mod Converges
use wto.Common.{
  String, Bool, true, false, ◌||◌, Option, none, some, List, [], ◌∷◌, is_some, if◌then◌else◌,
}
use wto.Common.Map.{lookup}
use wto.Common.Text.{concat, split_slash}
use wto.Api.{
  Error, Result, ok, err, Fetch, found, not_found, failed, NamespacedName, ReconcileResult, done,
  WorkloadTypeConfigSpec,
}
use wto.Webhook.Names.{profile_annotation}
use wto.Client.{GroupVersionKind, Unstructured, PropagationClient}
use wto.Propagation.Registry.{Registry}
use wto.Propagation.Annotate.{
  annotate, propagate_via_pod_template_path, propagate_via_annotation_path,
}

pub data ObjectEvent (Obj : Type 0) : Type 0 where
  created : Obj → ObjectEvent Obj
  object_updated : Obj → Obj → ObjectEvent Obj
  deleted generic : Obj → ObjectEvent Obj

module _ {Obj : Type 0} (access : Unstructured Obj) where
  abbrev pub has_profile : Obj → Bool
  has_profile obj = is_some (lookup profile_annotation (access.annotations obj))

  -- filterPred, the old object of an update before the new one
  unfoldable pub filter_pred : ObjectEvent Obj → Bool
  filter_pred (created obj) = has_profile obj
  filter_pred (object_updated old new) = has_profile new
  filter_pred (deleted obj) = false
  filter_pred (generic obj) = false

  -- mapFn
  unfoldable pub map_fn : String → Obj → List NamespacedName
  map_fn config_name obj =
      if has_profile obj
      then record {
        namespace = access.namespace obj;
        name = concat (config_name ∷ "/" ∷ access.name obj ∷ []);
      }
        ∷ []
      else []

  -- the loop over the annotation paths, with `changed`
  propagate_all : List String → String → Obj × Bool → Obj × Bool
  propagate_all [] profile_name (u, changed) = (u, changed)
  propagate_all (path ∷ paths) profile_name (u, changed) =
      let (u', changed') = propagate_via_annotation_path access u path profile_name in
      propagate_all paths profile_name (u', changed || changed')

  propagate_template : Option String → Obj → String → Obj × Bool
  propagate_template none u profile_name = (u, false)
  propagate_template (some path) u profile_name =
      propagate_via_pod_template_path access u path profile_name

  -- both ways, in the order of the code: the object, and `changed`
  unfoldable pub propagate : WorkloadTypeConfigSpec → Obj → String → Obj × Bool
  unfolding propagate_all propagate_template
  propagate spec u profile_name =
      propagate_all spec.annotation_paths profile_name
        (propagate_template spec.pod_template_path u profile_name)

module _ {Obj W : Type 0} (access : Unstructured Obj) (client : PropagationClient Obj W) where
  updated : Option Error × W → Result ReconcileResult × W
  updated (some e, w) = (err e, w)
  updated (none, w) = (ok done, w)

  write_changed : Obj × Bool → W → Result ReconcileResult × W
  write_changed (u, changed) w =
      if changed then updated (client.update_object u w) else (ok done, w)

  -- with the profile that the object names
  propagate_named : WorkloadTypeConfigSpec → Obj → Option String → W → Result ReconcileResult × W
  propagate_named spec u none w = (ok done, w)
  propagate_named spec u (some profile_name) w =
      write_changed (propagate access spec u profile_name) w

  -- from the object as it was read; one that is gone is no error
  unfoldable pub propagate_fetched :
      WorkloadTypeConfigSpec → Fetch Obj → W → Result ReconcileResult × W
  unfolding updated write_changed propagate_named
  propagate_fetched spec (not_found e) w = (ok done, w)
  propagate_fetched spec (failed e) w = (err e, w)
  propagate_fetched spec (found u) w =
      propagate_named spec u (lookup profile_annotation (access.annotations u)) w

  -- whether the configuration's propagation is native
  unless_native :
      Bool
      → NamespacedName
      → GroupVersionKind
      → WorkloadTypeConfigSpec
      → W
      → Result ReconcileResult × W
  unless_native true key gvk spec w = (ok done, w)
  unless_native false key gvk spec w = propagate_fetched spec (client.get_object gvk key w) w

  with_config :
      NamespacedName
      → Option GroupVersionKind
      → Option WorkloadTypeConfigSpec
      → W
      → Result ReconcileResult × W
  with_config key (some gvk) (some spec) w = unless_native spec.native_propagation key gvk spec w
  with_config key _ _ w = (ok done, w)

  -- the parts of the request's name
  with_parts : Registry → String → List String → W → Result ReconcileResult × W
  with_parts registry namespace (config_name ∷ obj_name ∷ []) w =
      with_config (record { namespace = namespace; name = obj_name })
        (lookup config_name registry.watched_gvks) (lookup config_name registry.config_specs) w
  with_parts registry namespace _ w = (ok done, w)

  -- Reconcile
  unfoldable pub reconcile : Registry → NamespacedName → W → Result ReconcileResult × W
  unfolding with_parts with_config unless_native
  reconcile registry req w = with_parts registry req.namespace (split_slash req.name) w
