-- ===== src/Profile/Reconcile/Patched.antt =====
-- The status patch that ends a reconcile, as the server has it.
use wto.Common.{none, ◌≡◌, sym, ◌∙◌, ap, ◌↔◌, ◌⊎◌, inl, inr, true, false, some, All}
use wto.Api.{found, NamespacedName, condition_valid, WorkloadProfileSpec, WorkloadProfile}
use wto.Webhook.Handle.{is_condition_true}
use wto.Quantity.{Quantities}
use wto.Client.{Recorder, ProfileClient}
use wto.Client.Server.{IsServer, IsMerged, IsPatched, key_of_profile}
use wto.Profile.Resolve.Unblocked.{IsResolved}
use wto.Profile.Status.{queue_valid, is_blocking, checked_conditions, updated}
use wto.Profile.Status.Validity.{updated_valid_iff}
use wto.Profile.Status.Blocking.{IsUnblocked-iff, checked_conditions-IsUnblocked}
use wto.Profile.Reconcile.Claims.{HasTemplate, HasTemplate-same, IsShown, IsShown-same}

module _ {Q W : Type 0} (ops : Quantities Q) (client : ProfileClient Q W) (recorder : Recorder W)
    (server : IsServer client) where
  -- One status patch leads from one state to another.
  abbrev pub IsSent : W → W → Type 0
  IsSent v w' =
      (base : WorkloadProfile Q) × (new : WorkloadProfile Q) × (client.patch_status base new v
        ≡ (none, w'))

  -- What the webhook may rely on: on the server the profile is resolved, by its own spec or by its
  -- template, the claims of the resolved spec have templates, and the profile is valid exactly if a
  -- queue placement names its queue and no claim's template was reported as missing when the status
  -- was sent.
  pub record IsSettled (profile : WorkloadProfile Q) (w' : W) : Type 0 where
    pub after : WorkloadProfile Q
    pub stored : server.profiles (key_of_profile profile) w' ≡ found after
    pub same_spec : after.spec ≡ profile.spec
    pub spec : WorkloadProfileSpec Q
    pub resolved_spec : after.status.resolved_spec ≡ some spec
    pub placement : spec.placement ≡ profile.spec.placement
    pub claims : All (HasTemplate ops client recorder server profile w') spec.device_claims
    -- the state in which the status was sent
    pub sent_at : W
    pub sent : IsSent sent_at w'
    pub valid : (is_condition_true after.status.conditions condition_valid ≡ true) ↔ (
        (queue_valid profile.spec.placement ≡ true)
        × All (IsShown ops client recorder server profile sent_at) spec.device_claims)

  merged_read :
      {A B : Type 0} (f : A → B) (base new before after : A)
      → IsMerged base new before after
      → f before ≡ f base
      → f after ≡ f new
  merged_read f base new before after m same = pick m.set
    where
      pick : (after ≡ new) ⊎ (new ≡ base) → f after ≡ f new
      pick (inl set) = ap f set
      pick (inr unchanged) = ap f (m.kept unchanged) ∙ same ∙ ap f (sym unchanged)

  -- The status patch of a resolved profile whose claims have their templates.
  pub patched-IsSettled :
      (profile profile' after : WorkloadProfile Q) (spec : WorkloadProfileSpec Q) (v w' : W)
      → IsResolved profile profile'
      → spec.placement ≡ profile.spec.placement
      → All (HasTemplate ops client recorder server profile' v) spec.device_claims
      → IsPatched profile' (updated ops client profile' spec v) profile after
      → client.patch_status profile' (updated ops client profile' spec v) v ≡ (none, w')
      → ((key : NamespacedName) → server.templates key w' ≡ server.templates key v)
      → server.profiles (key_of_profile profile) w' ≡ found after
      → IsSettled profile w'
  unfolding updated
  patched-IsSettled profile profile' after spec v w' r placement claims p sent same stored =
      record {
        after = after;
        stored = stored;
        same_spec = p.same_spec;
        spec = spec;
        resolved_spec = p.resolved_spec (sym r.same_resolved_spec);
        placement = placement;
        claims =
            HasTemplate-same ops client recorder server profile profile' spec.device_claims v w'
              same r.same_name r.same_namespace claims;
        sent_at = v;
        sent = (profile', new, sent);
        valid = (
          λ h.
              let (queue, shown) = valid_new.0 (sym same_valid ∙ h) in
              (
                ap queue_valid (sym placement) ∙ queue,
                IsShown-same ops client recorder server profile profile' spec.device_claims v
                    r.same_name r.same_namespace shown,
              ),
          λ (queue, shown).
              same_valid
              ∙ valid_new.1 (
                ap queue_valid placement ∙ queue,
                IsShown-same ops client recorder server profile' profile spec.device_claims v
                    (sym r.same_name) (sym r.same_namespace) shown,
              ),
        );
      }
    where
      new : WorkloadProfile Q
      new = updated ops client profile' spec v

      same_valid :
          is_condition_true after.status.conditions condition_valid
          ≡ is_condition_true new.status.conditions condition_valid
      same_valid =
          merged_read (λ cs. is_condition_true cs condition_valid) _ _ _ _ p.conditions
            (sym r.same_valid)

      unblocked : All (λ c. is_blocking c ≡ false) (checked_conditions ops client profile' spec v)
      unblocked =
          (IsUnblocked-iff _).1
            (checked_conditions-IsUnblocked ops client profile' spec v r.unblocked)

      valid_new : (is_condition_true new.status.conditions condition_valid ≡ true) ↔ (
          (queue_valid spec.placement ≡ true)
          × All (IsShown ops client recorder server profile' v) spec.device_claims)
      valid_new = (
        λ h.
            let (queue, shown, rest) = (updated_valid_iff ops client profile' spec v).0 h in
            (queue, shown),
        λ (queue, shown).
            (updated_valid_iff ops client profile' spec v).1 (queue, shown, unblocked),
      )
