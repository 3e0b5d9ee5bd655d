-- ===== src/Client.antt =====
-- What the reconcilers use of the API server's client and of the event recorder, which are not part
-- of the repository. `W` is the state of the cluster. A read leaves it alone; a write gives `none`
-- or its error, and the state after it.
pub mod Server
use wto.Common.{ℕ, String, Bool, Option, List}
use wto.Common.Map.{Map}
use wto.Api.{
  Message, Error, Result, Fetch, NamespacedName, Pod, Node, Namespace, LabelSelector, DeviceRequest,
  ResourceQuota, WorkloadProfile, WorkloadProfileTemplate, WorkloadTypeConfig,
}

pub data EventType : Type 0 where
  normal warning : EventType

-- Recorder.Eventf: the object, the kind of event, its reason and its text.
pub record Recorder (W : Type 0) : Type 0 where
  pub event : NamespacedName → EventType → String → Message → W → W

-- The reads and the write of the placement controller. A list is `none` on an error.
pub record PlacementClient (Q W : Type 0) : Type 0 where
  pub get_pod : NamespacedName → W → Fetch (Pod Q)
  pub get_profile : NamespacedName → W → Fetch (WorkloadProfile Q)
  pub list_quotas : String → W → Option (List (ResourceQuota Q))
  -- Patch(ctx, pod, client.MergeFrom(base)), the base first
  pub patch_pod : Pod Q → Pod Q → W → Option Error × W

-- A ResourceClaimTemplate, with the owner that its controller reference names.
pub record ResourceClaimTemplate : Type 0 where
  pub namespace : String
  pub name : String
  pub owner : Option NamespacedName
  pub requests : List DeviceRequest

-- The reads and the writes of the profile controller, and what it uses of controllerutil and of
-- metav1.LabelSelectorAsSelector. A list is `none` on an error.
pub record ProfileClient (Q W : Type 0) : Type 0 where
  pub now : W → ℕ
  pub get_profile : NamespacedName → W → Fetch (WorkloadProfile Q)
  pub get_template : String → W → Fetch (WorkloadProfileTemplate Q)
  pub get_namespace : String → W → Fetch Namespace
  pub get_claim_template : NamespacedName → W → Fetch ResourceClaimTemplate
  pub get_type_config : String → W → Fetch WorkloadTypeConfig
  pub list_device_classes : W → Option (List String)
  pub list_nodes : W → Option (List (Node Q))
  pub list_pods : String → W → Result (List (Pod Q))
  pub selector_matches : LabelSelector → Map String → Result Bool
  pub contains_finalizer : List String → String → Bool
  pub add_finalizer : List String → String → List String
  pub remove_finalizer : List String → String → List String
  pub set_controller_reference :
      WorkloadProfile Q → ResourceClaimTemplate → Result ResourceClaimTemplate
  -- Update(ctx, profile): the profile as the server gives it back
  pub update_profile : WorkloadProfile Q → W → Result (WorkloadProfile Q) × W
  -- Status().Patch(ctx, profile, client.MergeFrom(base)), the base first
  pub patch_status : WorkloadProfile Q → WorkloadProfile Q → W → Option Error × W
  -- controllerutil.CreateOrUpdate(ctx, client, object, mutate)
  pub create_or_update :
      ResourceClaimTemplate
      → (ResourceClaimTemplate → Result ResourceClaimTemplate)
      → W
      → Option Error × W

-- List(ctx, profiles, client.MatchingFields{index: value}), with the function that the index was
-- registered with. A list is `none` on an error.
pub record ProfileIndex (Q W : Type 0) : Type 0 where
  pub list_profiles :
      (WorkloadProfile Q → List String) → String → W → Option (List (WorkloadProfile Q))

-- schema.GroupVersionKind
pub record GroupVersionKind : Type 0 where
  pub group : String
  pub version : String
  pub kind : String

-- What the propagation controller uses of an unstructured object. NestedStringMap gives `none` where
-- Go gives a nil map, not found or with an error; SetNestedStringMap gives `none` for its error,
-- which leaves the object as it is.
pub record Unstructured (Obj : Type 0) : Type 0 where
  pub namespace : Obj → String
  pub name : Obj → String
  pub annotations : Obj → Map String
  pub nested_string_map : Obj → List String → Option (Map String)
  pub set_nested_string_map : Obj → Map String → List String → Option Obj

-- The reads and the writes of the propagation controller. `watch` is controller.Watch on the source
-- of a kind, whose handler makes requests for a configuration's name.
pub record PropagationClient (Obj W : Type 0) : Type 0 where
  pub get_object : GroupVersionKind → NamespacedName → W → Fetch Obj
  pub update_object : Obj → W → Option Error × W
  pub watch : String → GroupVersionKind → W → Option Error × W

-- The reads and the write of the workload type controller, with the names of the resources that
-- discovery lists for a group and version, and the texts of the library for these.
pub record TypeClient (W : Type 0) : Type 0 where
  pub now : W → ℕ
  pub get_config : NamespacedName → W → Fetch WorkloadTypeConfig
  pub server_resources : String → W → Result (List String)
  pub update_status : WorkloadTypeConfig → W → Option Error × W
  pub show_gvk : GroupVersionKind → String
  pub show_group_version : String → String → String

-- What EnsureDefaults uses: the embedded files, by their names, with the test for a directory, the
-- YAML decoder, a read and a write.
pub record DefaultsClient (Raw W : Type 0) : Type 0 where
  pub read_dir : Result (List (String × Bool))
  pub read_file : String → Result Raw
  pub unmarshal : Raw → Result WorkloadTypeConfig
  pub get_config : NamespacedName → W → Fetch WorkloadTypeConfig
  pub create_config : WorkloadTypeConfig → W → Option Error × W
