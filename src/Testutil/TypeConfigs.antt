-- ===== src/Testutil/TypeConfigs.antt =====
-- internal/testutil/testutil.go: WTCBuilder.
use wto.Common.{String, Bool, false, none, some, List, []}
use wto.Api.{WorkloadTypeConfigSpec, WorkloadTypeConfig}

-- NewWTC
unfoldable pub new_wtc : String → WorkloadTypeConfig
new_wtc name = record {
  name = name;
  labels = [];
  generation = 1;
  spec = record {
    group = "";
    version = "";
    kind = "";
    resource = "";
    pod_template_path = none;
    annotation_paths = [];
    known_container_names = [];
    native_propagation = false;
  };
  status = record { conditions = []; observed_gvk = "" };
}

abbrev with_spec : WorkloadTypeConfig → WorkloadTypeConfigSpec → WorkloadTypeConfig
with_spec wtc spec = record wtc { spec = spec }

-- WithGVKR
unfoldable pub with_gvkr :
    String → String → String → String → WorkloadTypeConfig → WorkloadTypeConfig
with_gvkr group version kind resource wtc =
    with_spec wtc
      (record (wtc.spec) { group = group; version = version; kind = kind; resource = resource })

-- WithPodTemplatePath
unfoldable pub with_pod_template_path : String → WorkloadTypeConfig → WorkloadTypeConfig
with_pod_template_path path wtc =
    with_spec wtc (record (wtc.spec) { pod_template_path = some path })

-- WithAnnotationPaths
unfoldable pub with_annotation_paths : List String → WorkloadTypeConfig → WorkloadTypeConfig
with_annotation_paths paths wtc = with_spec wtc (record (wtc.spec) { annotation_paths = paths })

-- WithKnownContainers
unfoldable pub with_known_containers : List String → WorkloadTypeConfig → WorkloadTypeConfig
with_known_containers names wtc =
    with_spec wtc (record (wtc.spec) { known_container_names = names })

-- WithNativePropagation
unfoldable pub with_native_propagation : Bool → WorkloadTypeConfig → WorkloadTypeConfig
with_native_propagation v wtc = with_spec wtc (record (wtc.spec) { native_propagation = v })
