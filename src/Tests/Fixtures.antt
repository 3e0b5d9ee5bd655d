-- ===== src/Tests/Fixtures.antt =====
-- A pod, a profile and quantities that are integers, for the tests. Names and values follow
-- internal/testutil/testutil.go and the tests beside the controllers.
use Prim.Native.Nat.{compare}
use wto.Common.{◌+◌, refl, none, some, [], ◌∷◌, arith}
use wto.Common.Int.{ℤ, pos, pos_part, neg_part, ◌-ℤ◌}
use wto.Api.{
  sprintf, ResourceRequirements, Container, Pod, Condition, condition_true, condition_valid,
  ContainerResources, DeviceClaim, NodePlacement, PlacementConfig, placement_type_node,
  WorkloadProfileSpec, WorkloadProfileStatus, WorkloadProfile, ResourceQuota,
}
use wto.Webhook.Names.{profile_annotation, scheduling_gate}
use wto.Quantity.{Quantities, IsExact}

unfoldable pub quantities : Quantities ℤ
unfolding ◌-ℤ◌
quantities = record {
  cmp = λ a b. compare (pos_part a + neg_part b) (pos_part b + neg_part a);
  sub = λ a b. a -ℤ b;
  zero = pos 0;
  new_quantity = λ n. n;
  show = λ n. "n";
}

pub quantities-IsExact : IsExact quantities (λ n. n)
unfolding quantities ◌-ℤ◌
quantities-IsExact = record {
  le_of_cmp = λ a b h. ground arith;
  cmp_of_le = λ a b h. ground arith;
  value_sub = λ a b. refl;
}

abbrev pub no_resources : ResourceRequirements ℤ
no_resources = record { requests = []; limits = []; claims = [] }

abbrev pub gpu_resources : ResourceRequirements ℤ
gpu_resources = record {
  requests = ("cpu", pos 4) ∷ ("memory", pos 8) ∷ [];
  limits = ("memory", pos 16) ∷ [];
  claims = [];
}

abbrev pub main : Container ℤ
main = record {
  name = "main";
  resources = record (no_resources) { requests = ("cpu", pos 1) ∷ ("disk", pos 2) ∷ [] };
}

abbrev pub gpu_claim : DeviceClaim
gpu_claim = record {
  name = "gpu";
  request = record {
    name = "gpu";
    exactly = some (record { device_class_name = "gpu.nvidia.com"; count = pos 0 });
  };
}

abbrev pub on_gpu_node : NodePlacement
on_gpu_node = record { node_selector = ("zone", "a") ∷ []; tolerations = [] }

abbrev pub node_placement : PlacementConfig
node_placement = record { type = placement_type_node; node = some on_gpu_node; queue = none }

abbrev pub by_index : ContainerResources ℤ
by_index = record { name = none; index = some (pos 0); resources = gpu_resources }

abbrev pub gpu_spec : WorkloadProfileSpec ℤ
gpu_spec = record {
  template_ref = none;
  defaults = none;
  containers = by_index ∷ [];
  device_claims = gpu_claim ∷ [];
  placement = some node_placement;
  target_kind = none;
}

abbrev pub valid : Condition
valid = record {
  type = condition_valid;
  status = condition_true;
  observed_generation = 1;
  last_transition_time = 5;
  reason = "Valid";
  message = sprintf "test condition" [];
}

abbrev pub empty_status : WorkloadProfileStatus ℤ
empty_status = record {
  conditions = [];
  resolved_spec = none;
  template_generation = none;
  resolved_generation = none;
  satisfiable_nodes = none;
  applied_workloads = none;
  drifted_workloads = none;
  quota_summary = none;
}

abbrev pub gpu_profile : WorkloadProfile ℤ
gpu_profile = record {
  name = "gpu";
  namespace = "team";
  generation = 7;
  finalizers = [];
  deletion_timestamp = none;
  spec = gpu_spec;
  status = record (empty_status) { conditions = valid ∷ []; resolved_spec = some gpu_spec };
}

abbrev pub pod : Pod ℤ
pod = record {
  name = "trainer";
  namespace = "team";
  labels = ("app", "train") ∷ [];
  annotations = (profile_annotation, "gpu") ∷ [];
  containers = main ∷ [];
  resource_claims = [];
  scheduling_gates = "example.com/other" ∷ [];
  node_selector = ("zone", "a") ∷ ("disk", "ssd") ∷ [];
  tolerations = [];
}

abbrev pub gated_pod : Pod ℤ
gated_pod = record (pod) { scheduling_gates = "example.com/other" ∷ scheduling_gate ∷ [] }

abbrev pub cpu_quota : ResourceQuota ℤ
cpu_quota = record {
  name = "team";
  hard = ("requests.cpu", pos 10) ∷ ("memory", pos 8) ∷ [];
  used = ("requests.cpu", pos 6) ∷ [];
}
