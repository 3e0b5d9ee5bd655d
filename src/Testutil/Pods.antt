-- ===== src/Testutil/Pods.antt =====
-- internal/testutil/testutil.go: PodBuilder, and the request that carries a pod.
use wto.Common.{String, Option, none, some, List, [], ◌∷◌, ◌++◌, ◌==◌, if◌then◌else◌}
use wto.Common.Map.{Map, insert}
use wto.Api.{ResourceRequirements, PodResourceClaim, Pod}
use wto.Webhook.Handle.{Request}

module _ {Q : Type 0} where
  abbrev pub plain : Map Q → Map Q → ResourceRequirements Q
  plain requests limits = record { requests = requests; limits = limits; claims = [] }

  -- NewPod
  unfoldable pub new_pod : String → String → Pod Q
  new_pod name namespace = record {
    name = name;
    namespace = namespace;
    labels = [];
    annotations = [];
    containers = record { name = "main"; resources = plain [] [] } ∷ [];
    resource_claims = [];
    scheduling_gates = [];
    node_selector = [];
    tolerations = [];
  }

  -- WithAnnotation
  unfoldable pub with_annotation : String → String → Pod Q → Pod Q
  with_annotation key value pod = record pod { annotations = insert key value pod.annotations }

  -- WithProfileAnnotation
  unfoldable pub with_profile_annotation : String → Pod Q → Pod Q
  with_profile_annotation profile_name pod = record pod {
    annotations = insert "workload-template.io/profile-name" profile_name pod.annotations;
  }

  -- WithLabel
  unfoldable pub with_label : String → String → Pod Q → Pod Q
  with_label key value pod = record pod { labels = insert key value pod.labels }

  -- WithSchedulingGate
  unfoldable pub with_scheduling_gate : String → Pod Q → Pod Q
  with_scheduling_gate name pod = record pod {
    scheduling_gates = pod.scheduling_gates ++ name ∷ [];
  }

  -- WithWTOGate
  unfoldable pub with_wto_gate : Pod Q → Pod Q
  with_wto_gate pod = record pod {
    scheduling_gates = pod.scheduling_gates ++ "workload-template.io/scheduling-gate" ∷ [];
  }

  -- WithContainer
  unfoldable pub with_container : String → Map Q → Map Q → Pod Q → Pod Q
  with_container name requests limits pod = record pod {
    containers = pod.containers ++ record { name = name; resources = plain requests limits } ∷ [];
  }

  -- WithContainerNamed
  unfoldable pub with_container_named : String → Pod Q → Pod Q
  with_container_named name pod = record pod {
    containers = pod.containers ++ record { name = name; resources = plain [] [] } ∷ [];
  }

  -- WithNodeSelector
  unfoldable pub with_node_selector : String → String → Pod Q → Pod Q
  with_node_selector key value pod = record pod {
    node_selector = insert key value pod.node_selector;
  }

  -- WithResourceClaims
  unfoldable pub with_resource_claims : List PodResourceClaim → Pod Q → Pod Q
  with_resource_claims claims pod = record pod { resource_claims = claims }

  -- NewAdmissionRequest, over what json.Marshal gives
  unfoldable pub new_admission_request : {Raw : Type 0} → (Pod Q → Raw) → Pod Q → Request Raw
  new_admission_request marshal pod = record { namespace = pod.namespace; object = marshal pod }

  -- `if text != "" { rl[name] = resource.MustParse(text) }`; a parse that panics is `none`
  parse_into : (String → Option Q) → String → String → Map Q → Option (Map Q)
  parse_into parse name text entries =
      if text == ""
      then some entries
      else elim (parse text) [ none ↦ none | some quantity ↦ some (insert name quantity entries) ]

  -- ResourceList
  unfoldable pub resource_list : (String → Option Q) → String → String → Option (Map Q)
  unfolding parse_into
  resource_list parse cpu memory = elim (parse_into parse "cpu" cpu []) [
    | none ↦ none
    | some entries ↦ parse_into parse "memory" memory entries
  ]
