-- ===== src/TypeConfig/Reconcile.antt =====
-- internal/controller/workloadtype_controller.go: checkCRDExists and Reconcile. The registry of the
-- propagation controller and the state of the cluster go through a reconcile side by side.
pub mod Watched
use wto.Common.{
  String, Bool, true, false, Option, none, some, List, [], ◌∷◌, ◌==◌, any, if◌then◌else◌,
}
use wto.Api.{
  Arg, Message, sprintf, sprintf_error, Error, Result, ok, err, Fetch, found, not_found, failed,
  NamespacedName, ReconcileResult, done, requeue_after, WorkloadTypeConfigStatus,
  WorkloadTypeConfig,
}
use wto.Client.{GroupVersionKind, PropagationClient, TypeClient}
use wto.Propagation.Registry.{Registry, deregister_gvk, register_gvk}
use wto.TypeConfig.Conditions.{set_wtc_condition}

abbrev pub condition_crd_available : String
condition_crd_available = "CRDAvailable"

abbrev pub condition_watch_active : String
condition_watch_active = "WatchActive"

abbrev pub gvk_of : WorkloadTypeConfig → GroupVersionKind
gvk_of wtc = record { group = wtc.spec.group; version = wtc.spec.version; kind = wtc.spec.kind }

-- err == nil
abbrev pub is_nil : Option Error → Bool
is_nil none = true
is_nil (some e) = false

abbrev pub watch_message : GroupVersionKind → Option Error → Message
watch_message gvk none = sprintf "Watching %s resources" (Arg.s gvk.kind ∷ [])
watch_message gvk (some e) = sprintf_error "Failed to register watch: %v" [] e

-- conditionReason
abbrev pub condition_reason : Bool → String → String → String
condition_reason true true_reason false_reason = true_reason
condition_reason false true_reason false_reason = false_reason

-- conditionMessage
abbrev pub condition_message : Bool → Message → Message → Message
condition_message true true_msg false_msg = true_msg
condition_message false true_msg false_msg = false_msg

module _ {Obj W : Type 0} (client : TypeClient W) (watches : PropagationClient Obj W) where
  -- checkCRDExists, from the list that discovery gives
  lists_resource : Result (List String) → String → Bool
  lists_resource (err e) resource = false
  lists_resource (ok names) resource = any (λ name. name == resource) names

  pub check_crd_exists : WorkloadTypeConfig → W → Bool
  unfolding lists_resource
  check_crd_exists wtc w =
      lists_resource
        (client.server_resources (client.show_group_version wtc.spec.group wtc.spec.version) w)
        wtc.spec.resource

  set_status : WorkloadTypeConfig → String → Bool → String → Message → W → WorkloadTypeConfig
  set_status wtc cond_type is_true reason message w = record wtc {
    status = record (wtc.status) {
      conditions =
          set_wtc_condition (client.now w) wtc.generation cond_type is_true reason message
            wtc.status.conditions;
    };
  }

  observe : WorkloadTypeConfig → WorkloadTypeConfig
  observe wtc = record wtc {
    status = record (wtc.status) { observed_gvk = client.show_gvk (gvk_of wtc) };
  }

  -- the status update that ends a reconcile: its error, or the result
  finish_update :
      ReconcileResult → Registry → Option Error × W → Result ReconcileResult × (Registry × W)
  finish_update result registry (some e, w) = (err e, (registry, w))
  finish_update result registry (none, w) = (ok result, (registry, w))

  crd_missing : WorkloadTypeConfig → Registry → W → Result ReconcileResult × (Registry × W)
  crd_missing wtc registry w = finish_update (requeue_after 30) registry (
      client.update_status
        (observe (
          set_status wtc condition_watch_active false "CRDUnavailable"
            (sprintf "Cannot watch — CRD not installed" []) w))
        w)

  -- the rest, after RegisterGVK
  watch_done :
      WorkloadTypeConfig → Option Error × (Registry × W) → Result ReconcileResult × (Registry × W)
  watch_done wtc (watch_err, (registry, w)) =
      finish_update (if is_nil watch_err then done else requeue_after 10) registry (
        client.update_status
          (observe (
            set_status wtc condition_watch_active (is_nil watch_err)
              (condition_reason (is_nil watch_err) "WatchRegistered" "WatchFailed")
              (watch_message (gvk_of wtc) watch_err) w))
          w)

  -- the condition CRDAvailable
  set_crd : Bool → WorkloadTypeConfig → W → WorkloadTypeConfig
  set_crd available wtc w =
      set_status wtc condition_crd_available available
        (condition_reason available "CRDFound" "CRDNotFound")
        (condition_message available
          (sprintf "CRD for %s found on cluster" (Arg.s (client.show_gvk (gvk_of wtc)) ∷ []))
          (sprintf "CRD for %s not found on cluster" (Arg.s (client.show_gvk (gvk_of wtc)) ∷ [])))
        w

  with_crd : Bool → WorkloadTypeConfig → Registry → W → Result ReconcileResult × (Registry × W)
  with_crd false wtc registry w = crd_missing (set_crd false wtc w) registry w
  with_crd true wtc registry w =
      watch_done (set_crd true wtc w)
        (register_gvk watches client.show_gvk wtc.name (gvk_of wtc) wtc.spec registry w)

  -- a configuration that is gone is taken out of the registry, by the request's name
  reconcile_fetched :
      NamespacedName
      → Fetch WorkloadTypeConfig
      → Registry
      → W
      → Result ReconcileResult × (Registry × W)
  reconcile_fetched req (found wtc) registry w = with_crd (check_crd_exists wtc w) wtc registry w
  reconcile_fetched req (not_found e) registry w = (ok done, (deregister_gvk req.name registry, w))
  reconcile_fetched req (failed e) registry w = (err e, (registry, w))

  -- Reconcile
  unfoldable pub reconcile : NamespacedName → Registry → W → Result ReconcileResult × (Registry × W)
  unfolding reconcile_fetched with_crd watch_done crd_missing finish_update observe set_status
      set_crd check_crd_exists
  reconcile req registry w = reconcile_fetched req (client.get_config req w) registry w
