-- ===== src/Tests/RetryTests.antt =====
-- A held pod of a team, with the quotas of its namespace.
use wto.Common.{◌≡◌, refl, sym, ap, true, false, Option, none, some, List, [], ◌∷◌, ◌++◌}
use wto.Common.Int.{ℤ, pos}
use wto.Api.{Error, ok, found, NamespacedName, done, Pod, ResourceQuota}
use wto.Client.{Recorder, PlacementClient}
use wto.Client.Server.{IsPodServer}
use wto.Placement.Gates.{has_scheduling_gate}
use wto.Placement.Quota.{
  check_quota, check_resource_quota, hard_request, used_request, resolve_profile_resources,
}
use wto.Placement.Reconcile.{placement_of}
use wto.Placement.Reconcile as placement
use wto.Placement.Reconcile.Progress.{placed}
use wto.Placement.Reconcile.Retry.{retries, IsFree, retries-IsFree}
use wto.Lifecycle.Filter.{event_filter-mutate}
use wto.Tests.Fixtures.{quantities, cpu_quota, gpu_spec, gpu_profile, pod, gated_pod}
use wto.Common.Map.{lookup}
use wto.Tests.LifecycleTests.{admitted_pod, settled_cluster, mutate_test}

-- The pod and the quotas of the namespace.
record Team : Type 0 where
  pod : Pod ℤ
  quotas : List (ResourceQuota ℤ)

abbrev team_client : PlacementClient ℤ Team
team_client = record {
  get_pod = λ key w. found w.pod;
  get_profile = λ key w. found gpu_profile;
  list_quotas = λ namespace w. some w.quotas;
  patch_pod = λ base new w. (none, record w { pod = new });
}

abbrev team_recorder : Recorder Team
team_recorder = record { event = λ key kind reason text w. w }

team_client-IsPodServer : IsPodServer team_client team_recorder
team_client-IsPodServer = record {
  patched = λ key pod new w w' there h. ap (λ (r : Option Error × Team). found r.1.pod) (sym h);
  refused = λ key pod new e w w' h. cc;
  recorded = λ key object kind reason text w. refl;
}

abbrev full_team : Team
full_team = record {
  pod = gated_pod;
  quotas = record (cpu_quota) { used = ("requests.cpu", pos 10) ∷ [] } ∷ [];
}

abbrev free_team : Team
free_team = record { pod = gated_pod; quotas = cpu_quota ∷ [] }

abbrev raised : Team → Team
raised w = record w { quotas = cpu_quota ∷ [] }

abbrev pod_name : NamespacedName
pod_name = record { namespace = "team"; name = "trainer" }

quota_test : check_quota quantities (some (cpu_quota ∷ [])) gpu_profile ≡ none
unfolding check_quota check_resource_quota hard_request used_request lookup
    resolve_profile_resources quantities
quota_test = refl

abbrev placed_team : Team
placed_team = record (free_team) { pod = placed admitted_pod gpu_profile }

event_filter-mutate_example :
    (placement.event_filter (some admitted_pod) ≡ true)
    × (placement.event_filter (some (placed admitted_pod gpu_profile)) ≡ false)
    × (placement.reconcile quantities team_client team_recorder pod_name placed_team
        ≡ (ok done, placed_team))
event_filter-mutate_example =
    event_filter-mutate quantities team_client team_recorder pod_name placed_team pod admitted_pod
      settled_cluster.profile gpu_profile gpu_spec mutate_test refl

retries-IsFree_example : IsFree quantities team_client team_recorder pod_name (
    retries quantities team_client team_recorder pod_name
      (((λ w. w) ∷ []) ++ raised ∷ (λ w. w) ∷ [])
      full_team)
unfolding has_scheduling_gate lookup retries
retries-IsFree_example =
    retries-IsFree quantities team_client team_recorder pod_name team_client-IsPodServer gated_pod
      "gpu" refl refl ((λ w. w) ∷ []) ((λ w. w) ∷ []) raised full_team refl (λ w. refl, tt)
      (λ w. refl) (λ w. refl, tt)
      (record {
        profile = gpu_profile;
        fetched = refl;
        within_quota = quota_test;
        w' = _;
        accepted = refl;
      })
