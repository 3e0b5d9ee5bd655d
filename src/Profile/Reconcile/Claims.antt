-- ===== src/Profile/Reconcile/Claims.antt =====
-- The ResourceClaimTemplates after the loop over the device claims.
use mathlib.Core.Path.{subst}
use wto.Common.{String, ◌≡◌, refl, sym, ◌∙◌, ap, true, Option, none, some, List, [], ◌∷◌, All}
use wto.Api.{Error, found, NamespacedName, DeviceClaim, WorkloadProfile}
use wto.Quantity.{Quantities}
use wto.Client.{Recorder, ProfileClient, ResourceClaimTemplate}
use wto.Client.Server.{IsServer}
use wto.Profile.Status.{not_missing, claim_key}
use wto.Profile.Reconcile.{wrap_sync, ensure_resource_claim_template, and_then, ensure_all}

module _ {Q W : Type 0} (ops : Quantities Q) (client : ProfileClient Q W) (recorder : Recorder W)
    (server : IsServer client) where
  -- The server has the claim's template.
  abbrev pub HasTemplate : WorkloadProfile Q → W → DeviceClaim → Type 0
  HasTemplate profile w claim =
      (t : ResourceClaimTemplate) × (server.templates (claim_key ops client profile claim) w
        ≡ found t)

  -- No template is lost and no profile changed.
  pub record IsSynced (w w' : W) : Type 0 where
    pub templates :
        (key : NamespacedName) (t : ResourceClaimTemplate)
        → server.templates key w ≡ found t
        → (t' : ResourceClaimTemplate) × (server.templates key w' ≡ found t')
    pub profiles : (key : NamespacedName) → server.profiles key w' ≡ server.profiles key w

  IsSynced-refl : (w : W) → IsSynced w w
  IsSynced-refl w = record { templates = λ key t h. (t, h); profiles = λ key. refl }

  IsSynced-trans : (u v w : W) → IsSynced u v → IsSynced v w → IsSynced u w
  IsSynced-trans u v w a b = record {
    templates = λ key t h. b.templates key _ (a.templates key t h).1;
    profiles = λ key. b.profiles key ∙ a.profiles key;
  }

  wrap_sync-eq-none :
      (name : String) (r : Option Error × W) (w' : W)
      → wrap_sync ops client recorder name r ≡ (none, w')
      → r ≡ (none, w')
  unfolding wrap_sync
  wrap_sync-eq-none name (none, w) w' h = h
  wrap_sync-eq-none name (some e, w) w' h = cc

  ensure_one :
      (profile : WorkloadProfile Q) (claim : DeviceClaim) (w w' : W)
      → server.IsQuiet w
      → ensure_resource_claim_template ops client recorder profile claim w ≡ (none, w')
      → HasTemplate profile w' claim × IsSynced w w' × server.IsQuiet w'
  unfolding ensure_resource_claim_template
  ensure_one profile claim w w' quiet h =
      let (there, templates, profiles, quiet') =
        server.synced _ _ w w' quiet (wrap_sync-eq-none _ _ w' h) in
      (there, record { templates = templates; profiles = profiles }, quiet')

  -- What follows a step that has ended well.
  pub and_then-eq-none :
      (r : Option Error × W) (next : W → Option Error × W) (w' : W)
      → and_then ops client recorder r next ≡ (none, w')
      → (v : W) × (r ≡ (none, v)) × (next v ≡ (none, w'))
  unfolding and_then
  and_then-eq-none (some e, v) next w' h = cc
  and_then-eq-none (none, v) next w' h = (v, refl, h)

  HasTemplate-IsSynced :
      (profile : WorkloadProfile Q) (claims : List DeviceClaim) (v w : W)
      → IsSynced v w
      → All (HasTemplate profile v) claims
      → All (HasTemplate profile w) claims
  HasTemplate-IsSynced profile [] v w s h = tt
  HasTemplate-IsSynced profile (c ∷ cs) v w s ((t, there), h) =
      (s.templates _ t there, HasTemplate-IsSynced profile cs v w s h)

  -- The templates stay what they are, and so does the key of the profile.
  pub HasTemplate-same :
      (profile profile' : WorkloadProfile Q) (claims : List DeviceClaim) (v w : W)
      → ((key : NamespacedName) → server.templates key w ≡ server.templates key v)
      → profile'.name ≡ profile.name
      → profile'.namespace ≡ profile.namespace
      → All (HasTemplate profile' v) claims
      → All (HasTemplate profile w) claims
  HasTemplate-same profile profile' [] v w same n s h = tt
  HasTemplate-same profile profile' (c ∷ cs) v w same n s ((t, there), h) =
      ((t, same _ ∙ rw (sym n, sym s) there), HasTemplate-same profile profile' cs v w same n s h)

  -- The client's read of the claim's template does not say that it is missing.
  abbrev pub IsShown : WorkloadProfile Q → W → DeviceClaim → Type 0
  IsShown profile w claim =
      not_missing (client.get_claim_template (claim_key ops client profile claim) w) ≡ true

  -- What is read by the key depends on the name and the namespace of the profile only.
  pub IsShown-same :
      (profile profile' : WorkloadProfile Q) (claims : List DeviceClaim) (w : W)
      → profile'.name ≡ profile.name
      → profile'.namespace ≡ profile.namespace
      → All (IsShown profile' w) claims
      → All (IsShown profile w) claims
  IsShown-same profile profile' [] w n s h = tt
  IsShown-same profile profile' (c ∷ cs) w n s (shown, h) =
      (rw (sym n, sym s) shown, IsShown-same profile profile' cs w n s h)

  -- After a loop that ends well while nobody else writes every claim has its template.
  pub ensure_all-HasTemplate :
      (profile : WorkloadProfile Q) (claims : List DeviceClaim) (w w' : W)
      → server.IsQuiet w
      → ensure_all ops client recorder profile claims w ≡ (none, w')
      → All (HasTemplate profile w') claims × IsSynced w w' × server.IsQuiet w'
  unfolding ensure_all
  ensure_all-HasTemplate profile [] w w' quiet h =
      let same = ap (λ (r : Option Error × W). r.1) h in
      (tt, rw same (IsSynced-refl w'), subst server.IsQuiet same quiet)
  ensure_all-HasTemplate profile (claim ∷ claims) w w' quiet h =
      let (v, first, rest) = and_then-eq-none _ _ w' h in
      let ((t, there), s, quiet') = ensure_one profile claim w v quiet first in
      let (others, s', quiet'') = ensure_all-HasTemplate profile claims v w' quiet' rest in
      ((s'.templates _ t there, others), IsSynced-trans w v w' s s', quiet'')
