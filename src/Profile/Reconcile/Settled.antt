-- ===== src/Profile/Reconcile/Settled.antt =====
-- The profile on the server after a reconcile that ended well.
use mathlib.Core.Path.{subst}
use wto.Common.{
  ℕ, String, ◌≡◌, refl, sym, ◌∙◌, ap, ◌⊎◌, inl, inr, Bool, true, false, Option, none, some, List,
  if◌then◌else◌,
}
use wto.Api.{
  Error, Result, ok, err, found, NamespacedName, ReconcileResult, done, WorkloadProfileSpec,
  WorkloadProfile,
}
use wto.Quantity.{Quantities}
use wto.Client.{Recorder, ProfileClient}
use wto.Client.Server.{IsServer, key_of_profile}
use wto.Profile.Resolve.{Resolution, refused, waiting, resolved, merged_spec, resolve_spec}
use wto.Profile.Resolve.Merged.{IsBound, resolve_spec_sound}
use wto.Profile.Resolve.Unblocked.{IsClean, IsResolved, resolve_spec-IsResolved}
use wto.Profile.Status.{update_status}
use wto.Profile.Deletion.{profile_finalizer}
use wto.Profile.Reconcile.{
  finished, after_resolve, after_finalizer, reconcile_live, reconcile_found, reconcile_fetched,
  reconcile,
}
use wto.Profile.Reconcile.Claims.{and_then-eq-none, ensure_all-HasTemplate}
use wto.Profile.Reconcile.Patched.{IsSettled, patched-IsSettled}

module _ {Q W : Type 0} (ops : Quantities Q) (client : ProfileClient Q W) (recorder : Recorder W)
    (server : IsServer client) where
  finished-eq-done :
      (r : Option Error × W) (w' : W)
      → finished ops client recorder r ≡ (ok done, w')
      → r ≡ (none, w')
  unfolding finished
  finished-eq-done (some e, w) w' h = cc
  finished-eq-done (none, w) w' h = ap (λ (r : Result ReconcileResult × W). (none, r.1)) h

  -- From the profile as resolveSpec was called on it, and the server has it, to the end.
  after_resolve-IsSettled :
      (profile : WorkloadProfile Q) (r : Resolution Q × W) (w w' : W)
      → IsClean profile profile.spec.template_ref
      → server.IsQuiet w
      → server.profiles (key_of_profile profile) w ≡ found profile
      → resolve_spec client profile w ≡ r
      → after_resolve ops client recorder r ≡ (ok done, w')
      → IsSettled ops client recorder server profile w'
  unfolding after_resolve update_status merged_spec
  after_resolve-IsSettled profile (refused e, u) w w' clean quiet there r h = cc
  after_resolve-IsSettled profile (waiting, u) w w' clean quiet there r h = cc
  after_resolve-IsSettled profile (resolved profile' spec, u) w w' clean quiet there r h =
      let kept = resolve_spec-IsResolved client profile profile' spec w u clean r in
      let (same_w, by) = resolve_spec_sound client profile profile' spec w u r in
      let (v, ensured, patched) =
        and_then-eq-none ops client recorder server _ _ w' (finished-eq-done _ w' h) in
      let (claims, synced, quiet') =
        ensure_all-HasTemplate ops client recorder server profile' spec.device_claims u v
          (subst server.IsQuiet (sym same_w) quiet) ensured in
      let same_key = same_key_of kept in
      let read =
        ap (λ key. server.profiles key v) same_key
        ∙ synced.profiles _
        ∙ ap (server.profiles (key_of_profile profile)) same_w
        ∙ there in
      let (after, read', p) = server.patched profile' _ profile v w' quiet' read patched in
      patched-IsSettled ops client recorder server profile profile' after spec v w' kept
        (placement_of by) claims p patched
        (λ key. server.patched_templates profile' _ v w' key quiet' patched)
        (ap (λ key. server.profiles key w') (sym same_key) ∙ read')
    where
      same_key_of : IsResolved profile profile' → key_of_profile profile' ≡ key_of_profile profile
      same_key_of kept = rw (kept.same_name, kept.same_namespace) refl

      placement_of :
          ((profile.spec.template_ref ≡ none) × (spec ≡ profile.spec) × (profile' ≡ profile))
            ⊎ IsBound client profile profile' spec w
          → spec.placement ≡ profile.spec.placement
      placement_of (inl (_, same, _)) = ap (λ (s : WorkloadProfileSpec Q). s.placement) same
      placement_of (inr b) = ap (λ (s : WorkloadProfileSpec Q). s.placement) b.merged

  -- The same, after the finalizer: the profile with other finalizers is the one that is resolved.
  after_finalizer-IsSettled :
      (profile : WorkloadProfile Q) (finalizers : List String)
      (got : Result (WorkloadProfile Q) × W) (w' : W)
      → IsClean profile profile.spec.template_ref
      → ((p : WorkloadProfile Q)
          → got.0 ≡ ok p
          → (p ≡ record profile { finalizers = finalizers })
            × (server.profiles (key_of_profile profile) got.1 ≡ found p)
            × server.IsQuiet got.1)
      → after_finalizer ops client recorder got ≡ (ok done, w')
      → IsSettled ops client recorder server (record profile { finalizers = finalizers }) w'
  unfolding after_finalizer
  after_finalizer-IsSettled profile finalizers (err e, v) w' clean written h = cc
  after_finalizer-IsSettled profile finalizers (ok p, v) w' clean written h =
      let (same, there, quiet) = written p refl in
      after_resolve-IsSettled (record profile { finalizers = finalizers })
        (resolve_spec client (record profile { finalizers = finalizers }) v) v w' clean quiet
        (there ∙ ap found same) refl
        (ap (λ q. after_resolve ops client recorder (resolve_spec client q v)) (sym same) ∙ h)

  -- Both ways to the finalizer give the profile as the server has it.
  live-IsSettled :
      (profile : WorkloadProfile Q) (held : Bool) (w w' : W)
      → IsClean profile profile.spec.template_ref
      → server.IsQuiet w
      → server.profiles (key_of_profile profile) w ≡ found profile
      → profile.deletion_timestamp ≡ none
      → after_finalizer ops client recorder (
          if held
          then (ok profile, w)
          else client.update_profile
              (record profile {
                finalizers = client.add_finalizer profile.finalizers profile_finalizer;
              })
              w)
        ≡ (ok done, w')
      → IsSettled ops client recorder server profile w'
  live-IsSettled profile true w w' clean quiet there live h =
      after_finalizer-IsSettled profile profile.finalizers (ok profile, w) w' clean
        (λ p e. (same_result p e, there ∙ ap found (sym (same_result p e)), quiet)) h
    where
      same_result :
          (p : WorkloadProfile Q)
          → ◌≡◌ {A = Result (WorkloadProfile Q)} (ok profile) (ok p)
          → p ≡ profile
      same_result p e = cc
  live-IsSettled profile false w w' clean quiet there live h = unfinalized (
      after_finalizer-IsSettled profile (client.add_finalizer profile.finalizers profile_finalizer)
        _ w' clean (λ p e. server.updated profile p _ w _ quiet there live (pair_eq p e)) h)
    where
      written : Result (WorkloadProfile Q) × W
      written =
          client.update_profile
            (record profile {
              finalizers = client.add_finalizer profile.finalizers profile_finalizer;
            })
            w

      pair_eq : (p : WorkloadProfile Q) → written.0 ≡ ok p → written ≡ (ok p, written.1)
      pair_eq p e = ap (λ (r : Result (WorkloadProfile Q)). (r, written.1)) e

      unfinalized :
          IsSettled ops client recorder server
            (record profile {
              finalizers = client.add_finalizer profile.finalizers profile_finalizer;
            })
            w'
          → IsSettled ops client recorder server profile w'
      unfinalized s = record {
        after = s.after;
        stored = s.stored;
        same_spec = s.same_spec;
        spec = s.spec;
        resolved_spec = s.resolved_spec;
        placement = s.placement;
        claims = s.claims;
        sent_at = s.sent_at;
        sent = s.sent;
        valid = s.valid;
      }

  -- A reconcile that ends well, of a profile that is not being deleted, that it reads as the server
  -- has it, and whose conditions, if it names a template, have no type twice, and if it names none,
  -- have neither TemplateFound nor NamespaceAllowed False, settles the profile on the server while
  -- nobody else writes: the server has it with its spec unchanged and with a resolved spec that has
  -- its placement, and has the ResourceClaimTemplate of each device claim of that spec. The profile
  -- is valid there, by the webhook's test, exactly if a queue placement names its queue and, in the
  -- state in which the status was sent, no read through the cache reported one of these
  -- ResourceClaimTemplates as missing. A device class that is missing is no reason against it.
  pub reconcile-IsSettled :
      (req : NamespacedName) (profile : WorkloadProfile Q) (w w' : W)
      → server.IsQuiet w
      → client.get_profile req w ≡ found profile
      → server.profiles req w ≡ found profile
      → profile.deletion_timestamp ≡ none
      → IsClean profile profile.spec.template_ref
      → reconcile ops client recorder req w ≡ (ok done, w')
      → IsSettled ops client recorder server profile w'
  unfolding reconcile reconcile_fetched reconcile_found reconcile_live
  reconcile-IsSettled req profile w w' quiet read there live clean h =
      live-IsSettled profile (client.contains_finalizer profile.finalizers profile_finalizer) w w'
        clean quiet (ap (λ key. server.profiles key w) (server.named req profile w there) ∙ there)
        live
        (sym (opened profile.deletion_timestamp live)
          ∙ ap (λ got. reconcile_fetched ops client recorder got w) (sym read)
          ∙ h)
    where
      opened :
          (deleted : Option ℕ)
          → deleted ≡ none
          → reconcile_found ops client recorder deleted profile w
            ≡ reconcile_live ops client recorder profile w
      opened none e = refl
      opened (some t) e = cc
