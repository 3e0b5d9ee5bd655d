-- ===== src/Tests/Cluster.antt =====
-- A cluster with one profile and with claim templates, which keeps the laws of Client/Server.antt.
use native.Mathlib.Decide.{ℕ_discrete}
use wto.Common.{
  String, ◌≡◌, refl, ◌∙◌, sym, ap, Bool, true, ◌&&◌, Option, none, some, List, ◌==◌, eq_iff,
  eq_refl, Bool-cases, inl, inr, arith, if◌then◌else◌,
}
use wto.Common.Int.{ℤ}
use wto.Api.{
  Error, api, Result, ok, err, Fetch, found, not_found, NamespacedName, Condition,
  WorkloadProfileSpec, WorkloadProfile,
}
use wto.Client.{ProfileClient, ResourceClaimTemplate}
use wto.Client.Server.{IsMerged, IsPatched, IsServer, key_of_profile, key_of_template}

unfoldable pub String_discrete : Discrete String
String_discrete a b = elim (Bool-cases (a == b)) [
  | inl same ↦ yes ((eq_iff a b).0 same)
  | inr other ↦ no (λ h. ground (arith, eq_iff a b))
]

unfoldable pub Conditions_discrete : Discrete (List Condition)
Conditions_discrete = hlevel (String_discrete, ℕ_discrete)

unfoldable pub Spec_discrete : Discrete (Option (WorkloadProfileSpec ℤ))
Spec_discrete = hlevel (String_discrete, ℕ_discrete)

-- A field under a merge patch.
unfoldable pub merged : {A : Type 0} → Discrete A → A → A → A → A
merged d base new before = elim (d new base) [ yes same ↦ before | no other ↦ new ]

merged-IsMerged :
    {A : Type 0} (d : Discrete A) (base new before : A)
    → IsMerged base new before (merged d base new before)
unfolding merged
merged-IsMerged d base new before = by_case (d new base)
  where
    by_case :
        (r : Dec (new ≡ base))
        → IsMerged base new before (elim r [ yes same ↦ before | no other ↦ new ])
    by_case (yes same) = record { kept = λ h. refl; set = inr same }
    by_case (no other) = record { kept = λ h. absurd (other h); set = inl refl }

abbrev pub same_key : NamespacedName → NamespacedName → Bool
same_key a b = (a.namespace == b.namespace) && (a.name == b.name)

pub record Cluster : Type 0 where
  pub profile : WorkloadProfile ℤ
  pub claim_template : NamespacedName → Fetch ResourceClaimTemplate

unfoldable pub patched_profile :
    WorkloadProfile ℤ → WorkloadProfile ℤ → WorkloadProfile ℤ → WorkloadProfile ℤ
patched_profile base new before = record before {
  status = record (new.status) {
    conditions =
        merged Conditions_discrete base.status.conditions new.status.conditions
          before.status.conditions;
    resolved_spec =
        merged Spec_discrete base.status.resolved_spec new.status.resolved_spec
          before.status.resolved_spec;
  };
}

unfoldable pub with_claim_template :
    ResourceClaimTemplate → Result ResourceClaimTemplate → Cluster → Option Error × Cluster
with_claim_template rct (err e) w = (some e, w)
with_claim_template rct (ok t) w = (
  none,
  record w {
    claim_template =
        λ key. if same_key key (key_of_template rct) then found t else w.claim_template key;
  },
)

unfoldable pub read_profile : NamespacedName → Cluster → Fetch (WorkloadProfile ℤ)
read_profile key w =
    if same_key key (key_of_profile w.profile) then found w.profile else not_found (api "not found")

-- Nothing else is read but the template.
unfoldable pub cluster_client : ProfileClient ℤ Cluster → ProfileClient ℤ Cluster
cluster_client client = record client {
  get_profile = read_profile;
  get_claim_template = λ key w. w.claim_template key;
  update_profile = λ profile w. (ok profile, record w { profile = profile });
  patch_status = λ base new w. (none, record w { profile = patched_profile base new w.profile });
  create_or_update = λ rct f w. with_claim_template rct (f rct) w;
}

same_key-same : (a : NamespacedName) → same_key a a ≡ true
same_key-same a = rw (eq_refl, eq_refl) refl

pub read_profile-found :
    (key : NamespacedName) (p : WorkloadProfile ℤ) (w : Cluster)
    → read_profile key w ≡ found p
    → (p ≡ w.profile) × (key_of_profile w.profile ≡ key)
unfolding read_profile
read_profile-found key p w h =
    ground (arith, eq_iff key.namespace w.profile.namespace, eq_iff key.name w.profile.name)

pub read_profile-at :
    (key : NamespacedName) (w : Cluster)
    → key_of_profile w.profile ≡ key
    → read_profile key w ≡ found w.profile
unfolding read_profile
read_profile-at key w h = rw (← h) (rw (same_key-same (key_of_profile w.profile)) refl)

synced_template :
    (rct : ResourceClaimTemplate) (r : Result ResourceClaimTemplate) (w w' : Cluster)
    → with_claim_template rct r w ≡ (none, w')
    → (t : ResourceClaimTemplate) × (w' ≡ record w {
      claim_template =
          λ key. if same_key key (key_of_template rct) then found t else w.claim_template key;
    })
unfolding with_claim_template
synced_template rct (err e) w w' h = cc
synced_template rct (ok t) w w' h = (t, ap (λ (r : Option Error × Cluster). r.1) (sym h))

kept_template :
    (key at : NamespacedName) (new t : ResourceClaimTemplate) (old : Fetch ResourceClaimTemplate)
    → old ≡ found t
    → (t' : ResourceClaimTemplate) × ((if same_key key at then found new else old) ≡ found t')
kept_template key at new t old h = elim (Bool-cases (same_key key at)) [
  | inl same ↦ (new, rw same refl)
  | inr other ↦ (t, rw other h)
]

pair_lem :
    {A B : Type 0} (x x' : A) (v v' : B)
    → ◌≡◌ {A = Result A × B} (ok x, v) (ok x', v')
    → (x' ≡ x) × (v' ≡ v)
pair_lem x x' v v' h = ground arith

none_lem : {B : Type 0} (v v' : B) → ◌≡◌ {A = Option Error × B} (none, v) (none, v') → v' ≡ v
none_lem v v' h = ap (λ (r : Option Error × _). r.1) (sym h)

merged_at_base : {A : Type 0} (d : Discrete A) (base new : A) → merged d base new base ≡ new
unfolding merged
merged_at_base d base new = by_case (d new base)
  where
    by_case : (r : Dec (new ≡ base)) → elim r [ yes same ↦ base | no other ↦ new ] ≡ new
    by_case (yes same) = sym same
    by_case (no other) = refl

read_after_patch :
    (base new before : WorkloadProfile ℤ) (w : Cluster)
    → read_profile (key_of_profile base) w ≡ found before
    → (after : WorkloadProfile ℤ) × (read_profile
          (key_of_profile base)
          (record w { profile = patched_profile base new w.profile })
        ≡ found after)
      × IsPatched base new before after
unfolding patched_profile
read_after_patch base new before w there =
    let (same, at) = read_profile-found (key_of_profile base) before w there in
    (
      patched_profile base new w.profile,
      read_profile-at (key_of_profile base)
          (record w { profile = patched_profile base new w.profile }) at,
      rw same (record {
        same_name = refl;
        same_namespace = refl;
        same_spec = refl;
        conditions = merged-IsMerged Conditions_discrete _ _ _;
        resolved_spec = λ h.
            ap (merged Spec_discrete base.status.resolved_spec new.status.resolved_spec) h
            ∙ merged_at_base Spec_discrete _ _;
      }),
    )

pub cluster_client-IsServer : (client : ProfileClient ℤ Cluster) → IsServer (cluster_client client)
unfolding cluster_client
cluster_client-IsServer client = record {
  profiles = read_profile;
  templates = λ key w. w.claim_template key;
  IsQuiet = λ w. Unit;
  named = λ key profile w h.
      let (same, at) = read_profile-found key profile w h in ap key_of_profile same ∙ at;
  updated = λ profile profile' finalizers w w' quiet there live h.
      let (same, at) = pair_lem _ profile' _ w' h in
      (
        same,
        rw (at, same)
            (read_profile-at (key_of_profile profile)
              (record w { profile = record profile { finalizers = finalizers } }) refl),
        tt,
      );
  synced = λ rct f w w' quiet h.
      let (t, same) = synced_template rct (f rct) w w' h in
      rw same (
        (t, rw (same_key-same (key_of_template rct)) refl),
        λ key t' there. kept_template key (key_of_template rct) t t' _ there,
        λ key. unfold read_profile in refl,
        tt,
      );
  patched = λ base new before w w' quiet there h.
      rw (none_lem _ w' h) (read_after_patch base new before w there);
  patched_templates = λ base new w w' key quiet h. rw (none_lem _ w' h) refl;
}

pub cluster-IsQuiet :
    (client : ProfileClient ℤ Cluster) (w : Cluster) → (cluster_client-IsServer client).IsQuiet w
unfolding cluster_client-IsServer
cluster-IsQuiet client w = tt

-- The server has what its only profile's key reads.
pub cluster_stored :
    (client : ProfileClient ℤ Cluster) (key : NamespacedName) (w : Cluster)
    → key_of_profile w.profile ≡ key
    → (cluster_client-IsServer client).profiles key w ≡ found w.profile
unfolding cluster_client-IsServer
cluster_stored client key w h = read_profile-at key w h
