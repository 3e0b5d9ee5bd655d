-- ===== src/Tests/TypeConfigTests.antt =====
-- The workload type controller, the target kind and the defaults on one configuration, for jobs.
use wto.Common.{
  ◌↔◌, ◌⊎◌, All, String, ◌≡◌, refl, ap, true, false, Option, none, some, List, [], ◌∷◌, ◌==◌,
  eq_iff, arith, if◌then◌else◌,
}
use wto.Common.Map.{Map, lookup, insert, lookup-insert}
use wto.Common.Text.{concat}
use wto.Api.{
  Message, sprintf, api, ok, Fetch, found, not_found, NamespacedName, done, WorkloadTypeConfig,
}
use wto.Client.{TypeClient, DefaultsClient}
use wto.Defaults.{ensure_defaults}
use wto.Defaults.Kept.{IsKeptByCreation, ensure_defaults_keeps}
use wto.Propagation.Registry.{register_gvk}
use wto.Propagation.Registry.Laws.{IsRegistered}
use wto.Propagation.Registry.Reachable.{empty_registry}
use wto.Profile.Conditions.Laws.{find_condition}
use wto.TypeConfig.Conditions.{set_wtc_condition}
use wto.TypeConfig.Conditions.Stale.{set_or_kept, find-set_wtc_condition}
use wto.TypeConfig.Reconcile
use wto.TypeConfig.Reconcile.{check_crd_exists, gvk_of, condition_watch_active}
use wto.TypeConfig.Reconcile.Watched.{reconcile-done, reconcile-not_found}
use wto.Webhook.Handle.{is_condition_true}
use wto.Api.{condition_target_kind_valid}
use wto.Profile.TargetKind.{validate_target_kind}
use wto.Profile.TargetKind.Compatible.{IsKnown, validate_target_kind_iff}
use wto.Tests.Fixtures.{valid, by_index}
use wto.Tests.PropagationTests.{Job, job_spec, watches, show_gvk, one_registry}

abbrev job_config : WorkloadTypeConfig
job_config = record {
  name = "job";
  labels = [];
  generation = 1;
  spec = job_spec;
  status = record { conditions = []; observed_gvk = "" };
}

abbrev types : TypeClient (List Job)
types = record {
  now = λ w. 9;
  get_config = λ key w. found job_config;
  server_resources = λ group_version w. ok ("cronjobs" ∷ "jobs" ∷ []);
  update_status = λ wtc w. (none, w);
  show_gvk = show_gvk;
  show_group_version = λ group version. concat (group ∷ "/" ∷ version ∷ []);
}

abbrev no_types : TypeClient (List Job)
no_types = record (types) { get_config = λ key w. not_found (api "not found") }

abbrev config_key : NamespacedName
config_key = record { namespace = ""; name = "job" }

type_reconcile_test : (Reconcile.reconcile types watches config_key empty_registry []).0 ≡ ok done
unfolding Reconcile.reconcile register_gvk lookup
type_reconcile_test = refl

reconcile-done_example :
    (check_crd_exists types watches job_config [] ≡ true)
    × IsRegistered "job"
        (gvk_of job_config)
        job_spec
        (Reconcile.reconcile types watches config_key empty_registry []).1.0
reconcile-done_example =
    reconcile-done types watches config_key job_config empty_registry [] refl type_reconcile_test

reconcile-not_found_example :
    (lookup "job" (Reconcile.reconcile no_types watches config_key one_registry []).1.0.watched_gvks
      ≡ (if config_key.name == "job" then none else lookup "job" one_registry.watched_gvks))
    × (lookup "job"
          (Reconcile.reconcile no_types watches config_key one_registry []).1.0.config_specs
        ≡ (if config_key.name == "job" then none else lookup "job" one_registry.config_specs))
reconcile-not_found_example =
    reconcile-not_found no_types watches config_key (api "not found") one_registry [] "job" refl

abbrev active_text : Message
active_text = sprintf "Watching %s resources" []

find-set_wtc_condition_example :
    find_condition condition_watch_active
      (set_wtc_condition 9 2 condition_watch_active true "WatchRegistered" active_text (valid ∷ []))
    ≡ (if condition_watch_active == condition_watch_active
        then some (
            set_or_kept 9 2 condition_watch_active true "WatchRegistered" active_text
              (find_condition condition_watch_active (valid ∷ [])))
        else find_condition condition_watch_active (valid ∷ []))
find-set_wtc_condition_example =
    find-set_wtc_condition 9 2 condition_watch_active true "WatchRegistered" active_text
      condition_watch_active (valid ∷ [])

-- The state is the configurations of the cluster, by their names.
abbrev configs_of : Option WorkloadTypeConfig → Fetch WorkloadTypeConfig
configs_of none = not_found (api "not found")
configs_of (some wtc) = found wtc

abbrev user_config : WorkloadTypeConfig
user_config = record (job_config) { labels = ("owner", "user") ∷ [] }

abbrev defaults : DefaultsClient WorkloadTypeConfig (Map WorkloadTypeConfig)
defaults = record {
  read_dir = ok (("job.yaml", false) ∷ []);
  read_file = λ name. ok job_config;
  unmarshal = λ wtc. ok wtc;
  get_config = λ key w. configs_of (lookup key.name w);
  create_config = λ wtc w. (none, insert wtc.name wtc w);
}

-- The user's configuration of jobs is the one in the cluster.
abbrev HasUserConfig : Map WorkloadTypeConfig → Type 0
HasUserConfig w = lookup "job" w ≡ some user_config

HasUserConfig-kept : IsKeptByCreation defaults HasUserConfig
HasUserConfig-kept wtc e w missing there =
    rw (lookup-insert wtc.name "job" wtc w)
      (ground (arith, eq_iff wtc.name "job", missing, there, ap (λ k. lookup k w)))

ensure_defaults_keeps_example :
    HasUserConfig (ensure_defaults defaults (("job", user_config) ∷ [])).1
unfolding lookup
ensure_defaults_keeps_example =
    ensure_defaults_keeps defaults HasUserConfig HasUserConfig-kept (("job", user_config) ∷ []) refl

abbrev found_config : String → Fetch WorkloadTypeConfig
found_config kind = found job_config

validate_target_kind_iff_example :
    (is_condition_true
        (validate_target_kind 9 7 (some "job") (by_index ∷ []) found_config (valid ∷ []))
        condition_target_kind_valid
      ≡ true)
    ↔ ((wtc : WorkloadTypeConfig) × (found_config "job" ≡ found wtc)
        × ((wtc.spec.known_container_names ≡ [])
            ⊎ All (λ c. IsKnown wtc.spec.known_container_names c.name) (by_index ∷ [])))
validate_target_kind_iff_example =
    validate_target_kind_iff 9 7 "job" (by_index ∷ []) (valid ∷ []) found_config
