-- ===== src/Lifecycle/Ready.antt =====
-- The profile controller and the webhook together.
use mathlib.Core.Path.{subst}
use wto.Common.{Bool, All, ◌≡◌, refl, sym, ◌∙◌, ap, ◌↔◌, ◌⊎◌, inl, inr, true, false, none, some, []}
use wto.Common.Map.{lookup}
use wto.Api.{
  Result, ok, found, NamespacedName, done, Pod, condition_valid, WorkloadProfileSpec,
  WorkloadProfile,
}
use wto.Webhook.Names.{profile_annotation}
use wto.Webhook.Handle.{
  Request, Response, is_kueue_managed, is_condition_true, check_blocking_conflicts, mutate,
  patch_response, handle,
}
use wto.Webhook.Handle.Admission.{IsPatched, handle-eq-patch_iff}
use wto.Quantity.{Quantities}
use wto.Client.{Recorder, ProfileClient}
use wto.Client.Server.{IsServer, key_of_profile}
use wto.Profile.Resolve.Unblocked.{IsClean}
use wto.Profile.Status.{queue_valid}
use wto.Profile.Reconcile.{reconcile}
use wto.Profile.Reconcile.Claims.{IsShown}
use wto.Profile.Reconcile.Patched.{IsSent, IsSettled}
use wto.Profile.Reconcile.Settled.{reconcile-IsSettled}

module _ {Q Raw W : Type 0} (ops : Quantities Q) (client : ProfileClient Q W)
    (recorder : Recorder W) (server : IsServer client) (decode : Request Raw → Result (Pod Q))
    (marshal : Pod Q → Result Raw) where
  -- The webhook, reading the profiles of a state of the cluster.
  abbrev pub handle_at : W → Request Raw → Response Raw
  handle_at w hook = handle decode marshal (λ key. client.get_profile key w) hook

  -- A pod of the profile's namespace that the webhook would mutate.
  pub record IsCandidate (hook : Request Raw) (profile after : WorkloadProfile Q)
      (spec : WorkloadProfileSpec Q) (raw : Raw) : Type 0 where
    pub pod : Pod Q
    pub decoded : decode hook ≡ ok pod
    pub not_kueue : is_kueue_managed pod ≡ false
    pub annotated : lookup profile_annotation pod.annotations ≡ some profile.name
    pub same_namespace : hook.namespace ≡ profile.namespace
    pub no_conflict : check_blocking_conflicts pod spec ≡ none
    pub mutated : Pod Q
    pub mutation : mutate pod after spec ≡ some mutated
    pub marshaled : marshal mutated ≡ ok raw

  ready-IsPatched :
      (hook : Request Raw) (profile after : WorkloadProfile Q) (spec : WorkloadProfileSpec Q)
      (raw : Raw) (w' : W)
      → client.get_profile (key_of_profile profile) w' ≡ found after
      → after.status.resolved_spec ≡ some spec
      → IsCandidate hook profile after spec raw
      → (p : IsPatched decode marshal (λ key. client.get_profile key w') hook hook.object raw)
      → (spec.device_claims ≡ [])
        ⊎ (is_condition_true after.status.conditions condition_valid ≡ true)
  ready-IsPatched hook profile after spec raw w' read reconciled c p = by_case p.ready
    where
      same_name : p.profile_name ≡ profile.name
      same_name =
          let same_pod : p.pod ≡ c.pod = cc (p.decoded, c.decoded) in
          cc (p.annotated, c.annotated, same_pod)

      same_profile : p.profile ≡ after
      same_profile = cc (p.fetched, read, same_name, c.same_namespace)

      same_spec : p.resolved ≡ spec
      same_spec = cc (p.reconciled, reconciled, same_profile)

      by_case :
          (p.resolved.device_claims ≡ [])
            ⊎ (is_condition_true p.profile.status.conditions condition_valid ≡ true)
          → (spec.device_claims ≡ [])
            ⊎ (is_condition_true after.status.conditions condition_valid ≡ true)
      by_case (inl none_claimed) =
          inl (ap (λ (s : WorkloadProfileSpec Q). s.device_claims) (sym same_spec) ∙ none_claimed)
      by_case (inr valid) = inr (
          ap (λ (q : WorkloadProfile Q). is_condition_true q.status.conditions condition_valid)
            (sym same_profile)
          ∙ valid)

  -- What decides on a pod of a settled profile: the answer is the patch exactly if the resolved
  -- spec has no device claims, or a queue placement names its queue and no claim's template was
  -- reported as missing when the status was sent.
  pub record IsDecided (hook : Request Raw) (profile : WorkloadProfile Q)
      (spec : WorkloadProfileSpec Q) (raw : Raw) (w' v : W) : Type 0 where
    -- the state in which the status was sent
    pub sent_at : W
    pub sent : IsSent ops client recorder server sent_at w'
    pub decided : (handle_at v hook ≡ patch_response hook.object raw) ↔ (
        (spec.device_claims ≡ [])
        ⊎ ((queue_valid profile.spec.placement ≡ true)
            × All (IsShown ops client recorder server profile sent_at) spec.device_claims))

  -- After a reconcile that ended well while nobody else wrote, of a profile that is not being
  -- deleted, that it read as the server had it, and whose conditions, if it names a template, have
  -- no type twice, and if it names none, have neither TemplateFound nor NamespaceAllowed False: take
  -- any state in which the webhook's cache shows the profile as the server had it after the
  -- reconcile, with its resolved spec, and a request in the profile's namespace for a pod that
  -- decodes, is not Kueue's, names the profile, is in no conflict with the resolved spec, and is
  -- mutated and encoded without a failure. The answer is the patch exactly if the resolved spec has
  -- no device claims, or a queue placement names its queue and, in the state in which the reconcile
  -- sent the status, no read through the cache reported a claim's ResourceClaimTemplate as missing.
  pub settled_profile_admits :
      (req : NamespacedName) (profile after : WorkloadProfile Q) (spec : WorkloadProfileSpec Q)
      (hook : Request Raw) (raw : Raw) (w w' v : W)
      → server.IsQuiet w
      → client.get_profile req w ≡ found profile
      → server.profiles req w ≡ found profile
      → profile.deletion_timestamp ≡ none
      → IsClean profile profile.spec.template_ref
      → reconcile ops client recorder req w ≡ (ok done, w')
      → server.profiles (key_of_profile profile) w' ≡ found after
      → client.get_profile (key_of_profile profile) v ≡ found after
      → after.status.resolved_spec ≡ some spec
      → IsCandidate hook profile after spec raw
      → IsDecided hook profile spec raw w' v
  settled_profile_admits req profile after spec hook raw w w' v quiet read there live clean h stored
        shown reconciled c =
      record {
        sent_at = settled.sent_at;
        sent = settled.sent;
        decided = (
          λ patch. to_queue (
              ready-IsPatched hook profile after spec raw v shown reconciled c (
                (handle-eq-patch_iff decode marshal (λ key. client.get_profile key v) hook
                    hook.object raw).0
                  patch)),
          λ may.
              (handle-eq-patch_iff decode marshal (λ key. client.get_profile key v) hook hook.object
                  raw).1
                (record {
                  pod = c.pod;
                  decoded = c.decoded;
                  not_kueue = c.not_kueue;
                  profile_name = profile.name;
                  annotated = c.annotated;
                  profile = after;
                  fetched =
                      ap (λ n. client.get_profile (record { namespace = n; name = profile.name }) v)
                        c.same_namespace
                      ∙ shown;
                  resolved = spec;
                  reconciled = reconciled;
                  no_conflict = c.no_conflict;
                  ready = from_queue may;
                  mutated = c.mutated;
                  mutation = c.mutation;
                  marshaled = c.marshaled;
                  original = refl;
                }),
        );
      }
    where
      settled : IsSettled ops client recorder server profile w'
      settled =
          reconcile-IsSettled ops client recorder server req profile w w' quiet read there live
            clean h

      same : settled.after ≡ after
      same = cc (settled.stored, stored)

      Queued : WorkloadProfileSpec Q → Type 0
      Queued s =
          (queue_valid profile.spec.placement ≡ true)
          × All (IsShown ops client recorder server profile settled.sent_at) s.device_claims

      same_spec : settled.spec ≡ spec
      same_spec = cc (settled.resolved_spec, reconciled, same)

      is_valid : WorkloadProfile Q → Bool
      is_valid q = is_condition_true q.status.conditions condition_valid

      to_queue :
          (spec.device_claims ≡ []) ⊎ (is_valid after ≡ true)
          → (spec.device_claims ≡ []) ⊎ Queued spec
      to_queue (inl e) = inl e
      to_queue (inr h) = inr (subst Queued same_spec (settled.valid.0 (ap is_valid same ∙ h)))

      from_queue :
          (spec.device_claims ≡ []) ⊎ Queued spec
          → (spec.device_claims ≡ []) ⊎ (is_valid after ≡ true)
      from_queue (inl e) = inl e
      from_queue (inr q) =
          inr (sym (ap is_valid same) ∙ settled.valid.1 (subst Queued (sym same_spec) q))
