-- ===== src/Tests/LagTests.antt =====
-- A reconcile whose cache does not show yet the ResourceClaimTemplates that it creates.
use wto.Common.{◌≡◌, refl, false, Bool-cases, inl, inr}
use wto.Common.Int.{ℤ}
use wto.Api.{api, ok, not_found, done, condition_valid, WorkloadProfile}
use wto.Webhook.Handle.{is_condition_true}
use wto.Client.{Recorder, ProfileClient}
use wto.Client.Server.{IsServer, key_of_profile}
use wto.Profile.Resolve.{resolve_spec}
use wto.Profile.Status.{updated, update_status}
use wto.Profile.Status.Validity.{updated_valid_iff}
use wto.Profile.Reconcile.{reconcile}
use wto.Tests.Fixtures.{quantities, gpu_spec}
use wto.Tests.ProfileTests.{bound_profile}
use wto.Tests.Cluster.{
  Cluster, cluster_client, cluster_client-IsServer, read_profile, with_claim_template,
}
use wto.Tests.LifecycleTests.{cluster, library}

unfoldable lagging_client : ProfileClient ℤ Cluster
lagging_client = record (cluster_client library) {
  get_claim_template = λ key w. not_found (api "not found");
}

-- The laws of the server hold all the same.
lagging_client-IsServer : IsServer lagging_client
unfolding lagging_client
lagging_client-IsServer =
    let server = cluster_client-IsServer library in
    record {
      profiles = server.profiles;
      templates = server.templates;
      IsQuiet = server.IsQuiet;
      named = server.named;
      updated = server.updated;
      synced = server.synced;
      patched = server.patched;
      patched_templates = server.patched_templates;
    }

abbrev recorder : Recorder Cluster
recorder = record { event = λ key kind reason text w. w }

abbrev lagged_cluster : Cluster
lagged_cluster =
    (reconcile quantities lagging_client recorder (key_of_profile bound_profile) cluster).1

-- The reconcile ends well, but the status that it sends is not valid while the cache does not show
-- the template.
lag_test :
    reconcile quantities lagging_client recorder (key_of_profile bound_profile) cluster
    ≡ (ok done, lagged_cluster)
unfolding lagging_client cluster_client read_profile with_claim_template reconcile resolve_spec
    update_status
lag_test = refl

abbrev lagged_profile : WorkloadProfile ℤ
lagged_profile = updated quantities lagging_client bound_profile gpu_spec lagged_cluster

lag_valid_test : is_condition_true lagged_profile.status.conditions condition_valid ≡ false
unfolding lagging_client
lag_valid_test =
    elim (Bool-cases (is_condition_true lagged_profile.status.conditions condition_valid)) [
      | inl valid ↦
          let (queue, (shown, others), rest) =
            (updated_valid_iff quantities lagging_client bound_profile gpu_spec lagged_cluster).0
              valid in
          cc shown
      | inr invalid ↦ invalid
    ]
