-- ===== src/Tests/SetupTests.antt =====
-- The start of the program, what is requeued and filtered, the counts, and a stale condition.
use wto.Common.{
  String, ◌≡◌, refl, sym, ◌⊎◌, Bool, true, false, Option, none, some, List, [], ◌∷◌, ◌==◌, any, All,
  eq_iff, Bool-cases, inl, inr, arith, if◌then◌else◌,
}
use mathlib.Core.List.{Memᴰ}
use mathlib.Core.List.Memᴰ
use wto.Common.Int.{ℤ}
use wto.Api.{
  Error, api, Result, ok, err, Fetch, found, not_found, NamespacedName, ReconcileResult, done,
  Condition, condition_false, condition_valid, condition_template_found, WorkloadProfile,
  WorkloadProfileTemplate,
}
use wto.Webhook.Handle.{is_condition_true}
use wto.Client.{ProfileIndex, DefaultsClient}
use wto.Client.Server.{key_of_profile}
use wto.Profile.Resolve.{resolved, resolve_spec}
use wto.Profile.Resolve.Templates.{with_templates}
use wto.Profile.Status.{updated}
use wto.Profile.Requeue.{index_template_ref, find_profiles_for_template}
use wto.Profile.Requeue.Coverage.{IsIndex, RefersTo, find_profiles_for_template_lem}
use wto.Profile.Reconcile.Stale.{is_stale, updated_stale}
use wto.Manager.{Framework, exited, run_steps, setup_placement, setup_profile, main_steps, main}
use wto.Tests.Fixtures.{quantities, gpu_spec, gpu_profile}
use wto.Tests.ProfileTests.{bound_profile, node}
use wto.Tests.ProfileTests as profile_tests
use wto.Tests.Cluster.{Cluster, cluster_client, read_profile, read_profile-found, read_profile-at}
use wto.Tests.LifecycleTests.{cluster, library}

-- The second step after the manager fails: the index for profiles.
abbrev framework : Framework (List String)
framework = record {
  parse_flags = λ flags w. flags;
  get_config = λ w. (none, "config" ∷ w);
  new_manager = λ flags w. (none, "manager" ∷ w);
  index_field = λ kind field w. (some (api "conflict"), w);
  complete = λ setup w. (none, "controller" ∷ w);
  new_controller = λ name w. (none, name ∷ w);
  new_discovery_client = λ w. (none, "discovery" ∷ w);
  register_webhook = λ path w. path ∷ w;
  add_runnable = λ run w. (none, "runnable" ∷ w);
  start = λ w. (none, "start" ∷ w);
}

abbrev no_defaults : DefaultsClient Unit (List String)
no_defaults = record {
  read_dir = ok [];
  read_file = λ name. ok tt;
  unmarshal = λ raw. err (api "empty");
  get_config = λ key w. not_found (api "not found");
  create_config = λ wtc w. (none, w);
}

main_test : main framework no_defaults [] ≡ (exited 1, "controller" ∷ "manager" ∷ "config" ∷ [])
unfolding main run_steps main_steps setup_placement setup_profile
main_test = refl

abbrev template_missing : Condition
template_missing = record {
  type = condition_template_found;
  status = condition_false;
  observed_generation = 6;
  last_transition_time = 5;
  reason = "NotFound";
  message = wto.Api.sprintf "WorkloadProfileTemplate %q not found" [];
}

abbrev stale_profile : WorkloadProfile ℤ
stale_profile = record (gpu_profile) {
  status = record (gpu_profile.status) { conditions = template_missing ∷ [] };
}

updated_stale_example :
    (resolve_spec profile_tests.client stale_profile [] ≡ (resolved stale_profile gpu_spec, []))
    × (is_condition_true
          (updated quantities profile_tests.client stale_profile gpu_spec []).status.conditions
          condition_valid
        ≡ false)
    × (is_stale
          (updated quantities profile_tests.client stale_profile gpu_spec []).status.conditions
        ≡ true)
updated_stale_example = updated_stale quantities profile_tests.client stale_profile [] refl refl

-- The index of a cluster with one profile.
abbrev listed_if : Bool → WorkloadProfile ℤ → List (WorkloadProfile ℤ)
listed_if true profile = profile ∷ []
listed_if false profile = []

unfoldable index : ProfileIndex ℤ Cluster
index = record {
  list_profiles = λ of value w. some (listed_if (any (λ v. v == value) (of w.profile)) w.profile);
}

any_of_mem : (v : String) (vs : List String) → Memᴰ v vs → any (λ x. x == v) vs ≡ true
any_of_mem v [] m = absurd (Memᴰ.not-nil m)
any_of_mem v (x ∷ xs) (Memᴰ.head e) = ground (arith, eq_iff x v, e)
any_of_mem v (x ∷ xs) (Memᴰ.tail m) = ground (arith, any_of_mem v xs m)

mem_of_any : (v : String) (vs : List String) → any (λ x. x == v) vs ≡ true → Memᴰ v vs
mem_of_any v [] h = cc
mem_of_any v (x ∷ xs) h = elim (Bool-cases (x == v)) [
  | inl same ↦ Memᴰ.head (sym ((eq_iff x v).0 same))
  | inr other ↦ Memᴰ.tail (mem_of_any v xs (ground (arith, other, h)))
]

listed-head :
    (profile p : WorkloadProfile ℤ) (b : Bool) (listed : List (WorkloadProfile ℤ))
    → ◌≡◌ {A = Option (List (WorkloadProfile ℤ))} (some (listed_if b p)) (some listed)
    → profile ≡ p
    → b ≡ true
    → Memᴰ profile listed
listed-head profile p true listed h same e = rw (Option-injective h) (Memᴰ.head same)
  where
    Option-injective :
        ◌≡◌ {A = Option (List (WorkloadProfile ℤ))} (some (p ∷ [])) (some listed) → listed ≡ p ∷ []
    Option-injective h = cc
listed-head profile p false listed h same e = cc

listed_sound :
    (of : WorkloadProfile ℤ → List String) (value : String) (w : Cluster) (b : Bool)
    (listed : List (WorkloadProfile ℤ))
    → any (λ v. v == value) (of w.profile) ≡ b
    → ◌≡◌ {A = Option (List (WorkloadProfile ℤ))} (some (listed_if b w.profile)) (some listed)
    → All
        (λ profile.
          Memᴰ value (of profile) × (read_profile (key_of_profile profile) w ≡ found profile))
        listed
listed_sound of value w true listed e h =
    rw (same h)
      ((mem_of_any value (of w.profile) e, read_profile-at (key_of_profile w.profile) w refl), tt)
  where
    same :
        ◌≡◌ {A = Option (List (WorkloadProfile ℤ))} (some (w.profile ∷ [])) (some listed)
        → listed ≡ w.profile ∷ []
    same h = cc
listed_sound of value w false listed e h = rw (same h) tt
  where
    same : ◌≡◌ {A = Option (List (WorkloadProfile ℤ))} (some []) (some listed) → listed ≡ []
    same h = cc

index-IsIndex : IsIndex (cluster_client library) index
unfolding index cluster_client
index-IsIndex = record {
  complete = λ of value w listed key profile list there at.
      let (same, _) = read_profile-found key profile w there in
      listed-head profile w.profile _ listed list same
        (any_of_mem value (of w.profile) (rw same at at));
  sound = λ of value w listed list. listed_sound of value w _ listed refl list;
}

abbrev without_base : String → Cluster → Fetch (WorkloadProfileTemplate ℤ)
without_base name w =
    if name == "base" then not_found (api "gone") else found profile_tests.template

find_profiles_for_template_lem_example :
    All
      (RefersTo (cluster_client library) index "base" cluster)
      (find_profiles_for_template index (some "base") cluster)
    × (Memᴰ (key_of_profile bound_profile) (find_profiles_for_template index (some "base") cluster)
        ⊎ (resolve_spec (with_templates (cluster_client library) without_base) bound_profile cluster
            ≡ resolve_spec (cluster_client library) bound_profile cluster))
unfolding index index_template_ref cluster_client read_profile
find_profiles_for_template_lem_example =
    find_profiles_for_template_lem (cluster_client library) index index-IsIndex "base" cluster
      (bound_profile ∷ []) without_base (key_of_profile bound_profile) bound_profile refl
      (λ name h. rw h refl) refl
