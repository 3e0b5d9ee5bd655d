-- ===== src/Placement/Gates.antt =====
-- internal/controller/placement_controller.go: the gate, and the node placement.
pub mod Laws
use wto.Common.{
  String, Bool, true, false, not, List, [], ◌∷◌, ◌++◌, ◌==◌, any, keep_if, is_empty, if◌then◌else◌,
}
use wto.Common.Map.{insert_all}
use wto.Api.{Pod, NodePlacement}
use wto.Webhook.Names.{scheduling_gate}

module _ {Q : Type 0} where
  -- hasSchedulingGate
  unfoldable pub has_scheduling_gate : Pod Q → Bool
  has_scheduling_gate pod = any (λ gate. gate == scheduling_gate) pod.scheduling_gates

  -- removeSchedulingGate
  unfoldable pub remove_scheduling_gate : Pod Q → Pod Q
  remove_scheduling_gate pod = record pod {
    scheduling_gates = keep_if (λ gate. not (gate == scheduling_gate)) pod.scheduling_gates;
  }

  -- applyNodePlacement
  unfoldable pub apply_node_placement : Pod Q → NodePlacement → Pod Q
  apply_node_placement pod node = record pod {
    node_selector =
        if is_empty node.node_selector
        then pod.node_selector
        else insert_all node.node_selector pod.node_selector;
    tolerations =
        if is_empty node.tolerations then pod.tolerations else pod.tolerations ++ node.tolerations;
  }
