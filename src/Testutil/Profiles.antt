-- ===== src/Testutil/Profiles.antt =====
-- internal/testutil/testutil.go: ProfileBuilder.
use wto.Common.{ℕ, String, Option, none, some, List, [], ◌∷◌, ◌++◌}
use wto.Common.Int.{ℤ}
use wto.Common.Map.{Map}
use wto.Api.{
  sprintf, Toleration, ConditionStatus, condition_valid, DeviceClaim, placement_type_node,
  placement_type_queue, WorkloadProfileSpec, WorkloadProfileStatus, WorkloadProfile,
}
use wto.Testutil.Pods.{plain}

-- the claim that WithDeviceClaim adds
abbrev pub exact_claim : String → String → ℤ → DeviceClaim
exact_claim claim_name device_class_name count = record {
  name = claim_name;
  request = record {
    name = claim_name;
    exactly = some (record { device_class_name = device_class_name; count = count });
  };
}

module _ {Q : Type 0} where
  abbrev empty_spec : WorkloadProfileSpec Q
  empty_spec = record {
    template_ref = none;
    defaults = none;
    containers = [];
    device_claims = [];
    placement = none;
    target_kind = none;
  }

  abbrev empty_status : WorkloadProfileStatus Q
  empty_status = record {
    conditions = [];
    resolved_spec = none;
    template_generation = none;
    resolved_generation = none;
    satisfiable_nodes = none;
    applied_workloads = none;
    drifted_workloads = none;
    quota_summary = none;
  }

  -- NewProfile
  unfoldable pub new_profile : String → String → WorkloadProfile Q
  new_profile name namespace = record {
    name = name;
    namespace = namespace;
    generation = 1;
    finalizers = [];
    deletion_timestamp = none;
    spec = empty_spec;
    status = empty_status;
  }

  abbrev with_spec : WorkloadProfile Q → WorkloadProfileSpec Q → WorkloadProfile Q
  with_spec profile spec = record profile { spec = spec }

  -- WithGeneration
  unfoldable pub with_generation : ℕ → WorkloadProfile Q → WorkloadProfile Q
  with_generation gen profile = record profile { generation = gen }

  -- WithDefaults
  unfoldable pub with_defaults : Map Q → Map Q → WorkloadProfile Q → WorkloadProfile Q
  with_defaults requests limits profile =
      with_spec profile
        (record (profile.spec) { defaults = some (record { resources = plain requests limits }) })

  -- WithContainer
  unfoldable pub with_container_resources :
      Option String → Option ℤ → Map Q → Map Q → WorkloadProfile Q → WorkloadProfile Q
  with_container_resources name index requests limits profile =
      with_spec profile (record (profile.spec) {
        containers =
            profile.spec.containers
            ++ record { name = name; index = index; resources = plain requests limits } ∷ [];
      })

  -- WithDeviceClaim
  unfoldable pub with_device_claim : String → String → ℤ → WorkloadProfile Q → WorkloadProfile Q
  with_device_claim claim_name device_class_name count profile =
      with_spec profile (record (profile.spec) {
        device_claims =
            profile.spec.device_claims ++ exact_claim claim_name device_class_name count ∷ [];
      })

  -- WithNodePlacement
  unfoldable pub with_node_placement :
      Map String → List Toleration → WorkloadProfile Q → WorkloadProfile Q
  with_node_placement node_selector tolerations profile = with_spec profile (record (profile.spec) {
    placement = some (record {
      type = placement_type_node;
      node = some (record { node_selector = node_selector; tolerations = tolerations });
      queue = none;
    });
  })

  -- WithQueuePlacement
  unfoldable pub with_queue_placement :
      String → Option String → WorkloadProfile Q → WorkloadProfile Q
  with_queue_placement queue_name priority_class profile =
      with_spec profile (record (profile.spec) {
        placement = some (record {
          type = placement_type_queue;
          node = none;
          queue = some (record { local_queue_name = queue_name; priority_class = priority_class });
        });
      })

  -- WithCondition, at a time; the message is a text without verbs
  unfoldable pub with_condition :
      ℕ → String → ConditionStatus → String → String → WorkloadProfile Q → WorkloadProfile Q
  with_condition now cond_type status reason message profile = record profile {
    status = record (profile.status) {
      conditions =
          profile.status.conditions
          ++ record {
            type = cond_type;
            status = status;
            observed_generation = profile.generation;
            last_transition_time = now;
            reason = reason;
            message = sprintf message [];
          }
            ∷ [];
    };
  }

  -- WithValidCondition
  unfoldable pub with_valid_condition : ℕ → ConditionStatus → WorkloadProfile Q → WorkloadProfile Q
  unfolding with_condition
  with_valid_condition now status profile =
      with_condition now condition_valid status "Test" "test condition" profile

  -- WithTemplateRef
  unfoldable pub with_template_ref : String → WorkloadProfile Q → WorkloadProfile Q
  with_template_ref template_name profile = with_spec profile (record (profile.spec) {
    template_ref = some template_name;
    defaults = none;
    containers = [];
    device_claims = [];
  })

  -- WithResolvedSpec; nil is `none`
  unfoldable pub with_resolved_spec :
      Option (WorkloadProfileSpec Q) → WorkloadProfile Q → WorkloadProfile Q
  with_resolved_spec spec profile = record profile {
    status = record (profile.status) { resolved_spec = spec };
  }

  -- WithTemplateGeneration
  unfoldable pub with_template_generation : ℕ → WorkloadProfile Q → WorkloadProfile Q
  with_template_generation gen profile = record profile {
    status = record (profile.status) { template_generation = some gen };
  }

  -- Resolve
  unfoldable pub resolve : WorkloadProfile Q → WorkloadProfile Q
  unfolding with_resolved_spec
  resolve profile = with_resolved_spec (some profile.spec) profile

  -- WithFinalizer
  unfoldable pub with_finalizer : WorkloadProfile Q → WorkloadProfile Q
  with_finalizer profile = record profile {
    finalizers = profile.finalizers ++ "workload-template.io/profile-protection" ∷ [];
  }

  -- WithDeletionTimestamp, at a time
  unfoldable pub with_deletion_timestamp : ℕ → WorkloadProfile Q → WorkloadProfile Q
  with_deletion_timestamp now profile = record profile { deletion_timestamp = some now }

  -- WithTargetKind
  unfoldable pub with_target_kind : String → WorkloadProfile Q → WorkloadProfile Q
  with_target_kind name profile =
      with_spec profile (record (profile.spec) { target_kind = some name })
