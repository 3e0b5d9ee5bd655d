-- ===== src/Placement/Reconcile.antt =====
-- internal/controller/placement_controller.go: Reconcile.
pub mod Safety
pub mod Progress
pub mod Retry
pub mod Admitted
use wto.Common.{
  ℕ, String, Bool, true, false, Option, none, some, List, [], ◌∷◌, ◌==◌, if◌then◌else◌,
}
use wto.Common.Map.{lookup, or_else}
use wto.Api.{
  Arg, Message, sprintf, sprintf_error, Error, wrapped, Result, ok, err, Fetch, found, not_found,
  failed, NamespacedName, ReconcileResult, done, requeue_after, Pod, NodePlacement, PlacementConfig,
  placement_type_node, WorkloadProfileSpec, WorkloadProfile,
}
use wto.Webhook.Names.{profile_annotation}
use wto.Quantity.{Quantities}
use wto.Client.{EventType, normal, warning, Recorder, PlacementClient}
use wto.Placement.Quota.{check_quota}
use wto.Placement.Gates.{has_scheduling_gate, remove_scheduling_gate, apply_node_placement}

abbrev pub quota_retry_interval : ℕ
quota_retry_interval = 30

module _ {Q : Type 0} where
  abbrev resolved_placement : Option (WorkloadProfileSpec Q) → Option PlacementConfig
  resolved_placement none = none
  resolved_placement (some resolved) = resolved.placement

  -- the resolved spec's placement, or else the spec's
  unfoldable pub placement_of : WorkloadProfile Q → Option PlacementConfig
  placement_of profile =
      or_else (resolved_placement profile.status.resolved_spec) profile.spec.placement

  place_node : Pod Q → Option NodePlacement → Pod Q
  place_node pod none = pod
  place_node pod (some node) = apply_node_placement pod node

  -- the switch over the placement's type
  unfoldable pub apply_placement : Pod Q → Option PlacementConfig → Pod Q
  unfolding place_node
  apply_placement pod none = pod
  apply_placement pod (some placement) =
      if placement.type == placement_type_node then place_node pod placement.node else pod

  abbrev pod_key : Pod Q → NamespacedName
  pod_key pod = record { namespace = pod.namespace; name = pod.name }

  -- the predicate of SetupWithManager; `none` is an object that is no pod
  unfoldable pub event_filter : Option (Pod Q) → Bool
  event_filter none = false
  event_filter (some pod) = has_scheduling_gate pod

module _ {Q W : Type 0} (ops : Quantities Q) (client : PlacementClient Q W)
    (recorder : Recorder W) where
  -- the patch that ends a reconcile: its error, or an event
  finish_patch :
      String → Pod Q → EventType → String → Message → Option Error × W → Result ReconcileResult × W
  finish_patch context pod kind reason text (some e, w) = (err (wrapped context [] e), w)
  finish_patch context pod kind reason text (none, w) =
      (ok done, recorder.event (pod_key pod) kind reason text w)

  ungate_without_profile : Pod Q → String → W → Result ReconcileResult × W
  ungate_without_profile pod profile_name w =
      finish_patch "ungate pod after profile deletion: %w" pod warning "ProfileDeleted"
        (sprintf
          "WorkloadProfile %q was deleted — pod ungated without placement configuration. Resources and DRA claims set at creation time remain intact."
          (Arg.q profile_name ∷ []))
        (client.patch_pod pod (remove_scheduling_gate pod) w)

  place : Pod Q → String → WorkloadProfile Q → W → Result ReconcileResult × W
  place pod profile_name profile w =
      finish_patch "patch pod: %w" pod normal "Ungated"
        (sprintf "WorkloadProfile %q applied: placement set, scheduling gate removed"
          (Arg.q profile_name ∷ []))
        (client.patch_pod pod (remove_scheduling_gate (apply_placement pod (placement_of profile)))
          w)

  place_within_quota :
      Pod Q → String → WorkloadProfile Q → Option Message → W → Result ReconcileResult × W
  place_within_quota pod profile_name profile (some reason) w = (
    ok (requeue_after quota_retry_interval),
    recorder.event (pod_key pod) warning "QuotaInsufficient" reason w,
  )
  place_within_quota pod profile_name profile none w = place pod profile_name profile w

  pub with_profile : Pod Q → String → Fetch (WorkloadProfile Q) → W → Result ReconcileResult × W
  with_profile pod profile_name (not_found e) w = ungate_without_profile pod profile_name w
  with_profile pod profile_name (failed e) w = (
    ok (requeue_after 10),
    recorder.event (pod_key pod) warning "ProfileError"
        (sprintf_error "Failed to load WorkloadProfile %q: %v" (Arg.q profile_name ∷ []) e) w,
  )
  with_profile pod profile_name (found profile) w =
      place_within_quota pod profile_name profile
        (check_quota ops (client.list_quotas pod.namespace w) profile) w

  pub with_pod : Pod Q → W → Result ReconcileResult × W
  with_pod pod w =
      if has_scheduling_gate pod
      then elim (lookup profile_annotation pod.annotations) [
        | none ↦ (ok done, w)
        | some profile_name ↦
            with_profile pod profile_name
              (client.get_profile (record { namespace = pod.namespace; name = profile_name }) w) w
      ]
      else (ok done, w)

  -- a pod that is gone is no error
  reconcile_fetched : Fetch (Pod Q) → W → Result ReconcileResult × W
  reconcile_fetched (found pod) w = with_pod pod w
  reconcile_fetched (not_found e) w = (ok done, w)
  reconcile_fetched (failed e) w = (err e, w)

  -- Reconcile
  unfoldable pub reconcile : NamespacedName → W → Result ReconcileResult × W
  unfolding reconcile_fetched with_pod with_profile place_within_quota place ungate_without_profile
      finish_patch
  reconcile req w = reconcile_fetched (client.get_pod req w) w
