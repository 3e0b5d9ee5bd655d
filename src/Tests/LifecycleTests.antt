-- ===== src/Tests/LifecycleTests.antt =====
-- The profile controller, the webhook and the placement controller on one cluster.
use wto.Common.{map, All, ◌≡◌, refl, true, Option, none, some, [], ◌∷◌, ◌++◌, ◌==◌, any}
use wto.Common.Int.{ℤ}
use wto.Api.{api, Result, ok, found, not_found, done, Pod}
use wto.Client.{Recorder, ProfileClient}
use wto.Client.Server.{key_of_profile}
use wto.Webhook.Inject.{inject_resources, inject_dra_claims}
use wto.Webhook.Handle.{
  Request, is_kueue_managed, check_blocking_conflicts, node_selector_of, mutate,
}
use wto.Placement.Gates.{has_scheduling_gate}
use wto.Placement.Reconcile.{placement_of}
use wto.Placement.Reconcile.Progress.{placed}
use wto.Profile.Resolve.{resolve_spec}
use wto.Profile.Status.{update_status}
use wto.Profile.Reconcile.{reconcile}
use wto.Lifecycle.Ready.{IsCandidate, IsDecided, settled_profile_admits}
use wto.Webhook.Inject.Claims.{claim_ref}
use wto.Lifecycle.Claims.{IsBacked, mutate-IsBacked}
use wto.Lifecycle.Journey.{IsPlaced, placed_after_mutate}
use wto.Profile.Reconcile.Patched.{IsSettled}
use wto.Profile.Reconcile.Settled.{reconcile-IsSettled}
use wto.Tests.Fixtures.{quantities, gpu_spec, gpu_profile, pod}
use wto.Common.Map.{lookup}
use wto.Tests.ProfileTests.{bound_profile}
use wto.Tests.ProfileTests
use wto.Tests.Cluster.{
  Cluster, merged, patched_profile, String_discrete, Spec_discrete, cluster_client,
  cluster_client-IsServer, cluster-IsQuiet, cluster_stored, read_profile, read_profile-at,
  with_claim_template,
}

abbrev pub library : ProfileClient ℤ Cluster
library = record {
  now = λ w. 9;
  get_profile = λ key w. not_found (api "not found");
  get_template = λ name w. found ProfileTests.template;
  get_namespace = λ name w. found (record { name = "team"; labels = ("gpu", "yes") ∷ [] });
  get_claim_template = λ key w. not_found (api "not found");
  get_type_config = λ kind w. not_found (api "not found");
  list_device_classes = λ w. some ("gpu.nvidia.com" ∷ []);
  list_nodes = λ w. some [];
  list_pods = λ namespace w. ok [];
  selector_matches = λ s labels. ok true;
  contains_finalizer = λ finalizers f. any (λ g. g == f) finalizers;
  add_finalizer = λ finalizers f. finalizers ++ f ∷ [];
  remove_finalizer = λ finalizers f. [];
  set_controller_reference =
      λ profile rct. ok (record rct { owner = some (key_of_profile profile) });
  update_profile = λ profile w. (ok profile, w);
  patch_status = λ base new w. (none, w);
  create_or_update = λ rct f w. (none, w);
}

abbrev recorder : Recorder Cluster
recorder = record { event = λ key kind reason text w. w }

abbrev pub cluster : Cluster
cluster = record { profile = bound_profile; claim_template = λ key. not_found (api "not found") }

abbrev pub settled_cluster : Cluster
settled_cluster =
    (reconcile quantities (cluster_client library) recorder (key_of_profile bound_profile)
      cluster).1

reconcile_test :
    reconcile quantities (cluster_client library) recorder (key_of_profile bound_profile) cluster
    ≡ (ok done, settled_cluster)
unfolding cluster_client read_profile with_claim_template reconcile resolve_spec update_status
reconcile_test = refl

reconcile-IsSettled_example :
    IsSettled quantities
      (cluster_client library)
      recorder
      (cluster_client-IsServer library)
      bound_profile
      settled_cluster
unfolding cluster_client read_profile
reconcile-IsSettled_example =
    reconcile-IsSettled quantities (cluster_client library) recorder
      (cluster_client-IsServer library) (key_of_profile bound_profile) bound_profile cluster
      settled_cluster (cluster-IsQuiet library cluster) refl
      (cluster_stored library (key_of_profile bound_profile) cluster refl) refl tt reconcile_test

abbrev decode : Request (Pod ℤ) → Result (Pod ℤ)
decode hook = ok hook.object

abbrev encode : Pod ℤ → Result (Pod ℤ)
encode p = ok p

abbrev hook : Request (Pod ℤ)
hook = record { namespace = "team"; object = pod }

abbrev pub pod_or : Option (Pod ℤ) → Pod ℤ
pod_or none = pod
pod_or (some p) = p

settled_spec_test : settled_cluster.profile.status.resolved_spec ≡ some gpu_spec
unfolding cluster_client read_profile with_claim_template reconcile resolve_spec update_status
    patched_profile merged Spec_discrete String_discrete
settled_spec_test = refl

settled_key_test : key_of_profile settled_cluster.profile ≡ key_of_profile bound_profile
unfolding cluster_client read_profile with_claim_template reconcile resolve_spec update_status
    patched_profile
settled_key_test = refl

abbrev pub admitted_pod : Pod ℤ
admitted_pod = pod_or (mutate pod settled_cluster.profile gpu_spec)

pub mutate_test : mutate pod settled_cluster.profile gpu_spec ≡ some admitted_pod
unfolding mutate inject_resources inject_dra_claims
mutate_test = refl

candidate :
    IsCandidate quantities
      (cluster_client library)
      recorder
      (cluster_client-IsServer library)
      decode
      encode
      hook
      bound_profile
      settled_cluster.profile
      gpu_spec
      admitted_pod
unfolding is_kueue_managed check_blocking_conflicts lookup
candidate = record {
  pod = pod;
  decoded = refl;
  not_kueue = refl;
  annotated = refl;
  same_namespace = refl;
  no_conflict = refl;
  mutated = admitted_pod;
  mutation = mutate_test;
  marshaled = refl;
}

settled_profile_admits_example :
    IsDecided quantities
      (cluster_client library)
      recorder
      (cluster_client-IsServer library)
      decode
      encode
      hook
      bound_profile
      gpu_spec
      admitted_pod
      settled_cluster
      settled_cluster
unfolding cluster_client read_profile
settled_profile_admits_example =
    settled_profile_admits quantities (cluster_client library) recorder
      (cluster_client-IsServer library) decode encode (key_of_profile bound_profile) bound_profile
      settled_cluster.profile gpu_spec hook admitted_pod cluster settled_cluster settled_cluster
      (cluster-IsQuiet library cluster) refl
      (cluster_stored library (key_of_profile bound_profile) cluster refl) refl tt reconcile_test
      (cluster_stored library (key_of_profile bound_profile) settled_cluster settled_key_test)
      (read_profile-at (key_of_profile bound_profile) settled_cluster settled_key_test)
      settled_spec_test candidate

-- The profile is there, whatever the key.
placed_after_mutate_example :
    IsPlaced pod admitted_pod
      (node_selector_of gpu_spec.placement)
      (placed admitted_pod gpu_profile)
unfolding has_scheduling_gate check_blocking_conflicts lookup placement_of
placed_after_mutate_example =
    placed_after_mutate pod admitted_pod settled_cluster.profile gpu_profile gpu_spec refl refl
      (refl, tt) mutate_test refl

mutate-IsBacked_example :
    (admitted_pod.resource_claims ≡ map (claim_ref "gpu") gpu_spec.device_claims)
    × All
        (IsBacked quantities
          (cluster_client library)
          recorder
          (cluster_client-IsServer library)
          "team"
          settled_cluster)
        (map (claim_ref "gpu") gpu_spec.device_claims)
unfolding cluster_client read_profile
mutate-IsBacked_example =
    mutate-IsBacked quantities (cluster_client library) recorder (cluster_client-IsServer library)
      (key_of_profile bound_profile) bound_profile settled_cluster.profile gpu_spec pod admitted_pod
      cluster settled_cluster (cluster-IsQuiet library cluster) refl
      (cluster_stored library (key_of_profile bound_profile) cluster refl) refl tt reconcile_test
      (cluster_stored library (key_of_profile bound_profile) settled_cluster settled_key_test)
      settled_spec_test mutate_test
