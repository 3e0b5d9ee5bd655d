-- ===== src/Lifecycle/Filter.antt =====
-- The webhook and the events that the placement controller sees.
use wto.Common.{◌≡◌, true, false, some}
use wto.Api.{ok, found, NamespacedName, done, Pod, WorkloadProfileSpec, WorkloadProfile}
use wto.Webhook.Handle.{mutate}
use wto.Webhook.Handle.Mutation.{mutate_gates}
use wto.Quantity.{Quantities}
use wto.Client.{Recorder, PlacementClient}
use wto.Placement.Gates.{has_scheduling_gate}
use wto.Placement.Gates.Laws.{has-remove_scheduling_gate}
use wto.Placement.Reconcile.{placement_of, apply_placement, event_filter, reconcile}
use wto.Placement.Reconcile.Safety.{reconcile-event_filter}
use wto.Placement.Reconcile.Progress.{placed}

module _ {Q W : Type 0} (ops : Quantities Q) (client : PlacementClient Q W)
    (recorder : Recorder W) where
  -- The events of every pod that the webhook has mutated pass the filter of the placement
  -- controller, and once the pod is placed they pass no more; then there is nothing to do for it:
  -- a reconcile that reads it leaves it alone.
  pub event_filter-mutate :
      (req : NamespacedName) (w : W) (pod admitted : Pod Q) (profile later : WorkloadProfile Q)
      (resolved : WorkloadProfileSpec Q)
      → mutate pod profile resolved ≡ some admitted
      → client.get_pod req w ≡ found (placed admitted later)
      → (event_filter (some admitted) ≡ true)
        × (event_filter (some (placed admitted later)) ≡ false)
        × (reconcile ops client recorder req w ≡ (ok done, w))
  unfolding event_filter has_scheduling_gate
  event_filter-mutate req w pod admitted profile later resolved mutation there =
      let free = has-remove_scheduling_gate (apply_placement admitted (placement_of later)) in
      (
        (mutate_gates pod admitted profile resolved mutation).0,
        free,
        reconcile-event_filter ops client recorder req w (placed admitted later) there free,
      )
