-- ===== src/Tests/PlacementTests.antt =====
-- The placement controller on a gated pod, a profile for nodes and one quota.
use wto.Common.{◌≡◌, refl, ◌↔◌, ◌⊎◌, false, ℕ, none, some, List, [], ◌∷◌, All}
use wto.Common.Int.{ℤ}
use wto.Common.Map.{lookup}
use wto.Api.{ok, found, NamespacedName, requeue_after, Pod, WorkloadProfile}
use wto.Client.{Recorder, PlacementClient}
use wto.Placement.Quota.{effective_spec, resolve_profile_resources, check_quota}
use wto.Placement.Quota.Verdict.{ResourcesFit, check_quota_iff}
use wto.Placement.Quota.Devices.{
  with_resolved_claims, check_quota-with_resolved_claims, check_quota_without_resources,
}
use wto.Placement.Gates.{has_scheduling_gate}
use wto.Placement.Reconcile.{reconcile}
use wto.Placement.Reconcile.Safety.{OnlyEvent, MayUngate, IsPatch, reconcile_gated}
use wto.Tests.Fixtures.{
  quantities, quantities-IsExact, gpu_claim, gpu_spec, gpu_profile, pod, gated_pod, cpu_quota,
}

-- The state is the list of the pods that were patched in.
abbrev client : PlacementClient ℤ (List (Pod ℤ))
client = record {
  get_pod = λ key w. found gated_pod;
  get_profile = λ key w. found gpu_profile;
  list_quotas = λ namespace w. some (cpu_quota ∷ []);
  patch_pod = λ base new w. (none, new ∷ w);
}

abbrev pub fresh_client : PlacementClient ℤ (List (Pod ℤ))
fresh_client = record (client) { get_pod = λ key w. found pod }

abbrev pub recorder : Recorder (List (Pod ℤ))
recorder = record { event = λ key kind reason text w. w }

abbrev pub pod_name : NamespacedName
pod_name = record { namespace = "team"; name = "trainer" }

abbrev profile_name : NamespacedName
profile_name = record { namespace = "team"; name = "gpu" }

reconcile_gated_example :
    (OnlyEvent quantities client recorder [] (reconcile quantities client recorder pod_name []).1
      × ((n : ℕ) × ((reconcile quantities client recorder pod_name []).0 ≡ ok (requeue_after n))))
    ⊎ ((new : Pod ℤ) × MayUngate quantities client recorder [] gated_pod new
          (client.get_profile profile_name [])
        × IsPatch quantities client recorder [] gated_pod new
            (reconcile quantities client recorder pod_name [])
        × (has_scheduling_gate new ≡ false))
unfolding has_scheduling_gate lookup
reconcile_gated_example =
    reconcile_gated quantities client recorder pod_name [] gated_pod "gpu" refl refl refl

check_quota_iff_example :
    (check_quota quantities (some (cpu_quota ∷ [])) gpu_profile ≡ none)
    ↔ All
        (λ quota.
          ResourcesFit quantities
            (λ n. n)
            quota
            gpu_profile
            (resolve_profile_resources gpu_profile))
        (cpu_quota ∷ [])
check_quota_iff_example =
    check_quota_iff quantities (λ n. n) quantities-IsExact (cpu_quota ∷ []) gpu_profile

check_quota-with_resolved_claims_example :
    check_quota quantities
      (some (cpu_quota ∷ []))
      (with_resolved_claims (gpu_claim ∷ gpu_claim ∷ []) gpu_profile)
    ≡ check_quota quantities (some (cpu_quota ∷ [])) gpu_profile
check_quota-with_resolved_claims_example =
    check_quota-with_resolved_claims quantities (some (cpu_quota ∷ [])) (gpu_claim ∷ gpu_claim ∷ [])
      gpu_profile

abbrev claims_only : WorkloadProfile ℤ
claims_only = record (gpu_profile) {
  status = record (gpu_profile.status) {
    resolved_spec = some (record (gpu_spec) { containers = [] });
  };
}

check_quota_without_resources_example :
    check_quota quantities (some (cpu_quota ∷ [])) claims_only ≡ none
unfolding effective_spec
check_quota_without_resources_example =
    check_quota_without_resources quantities (some (cpu_quota ∷ [])) claims_only refl refl
