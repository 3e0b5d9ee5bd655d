-- ===== src/Placement/Reconcile/Retry.antt =====
-- A pod that is held is tried again until there is room.
use wto.Common.{
  String, ◌≡◌, refl, ◌∙◌, ap, ◌⊎◌, inl, inr, true, false, Option, none, some, List, [], ◌∷◌, ◌++◌,
  All,
}
use wto.Common.Map.{lookup}
use wto.Api.{
  Error, Result, ok, Fetch, found, NamespacedName, ReconcileResult, requeue_after, Pod,
  WorkloadProfile,
}
use wto.Webhook.Names.{profile_annotation}
use wto.Quantity.{Quantities}
use wto.Client.{Recorder, PlacementClient}
use wto.Client.Server.{IsPodServer}
use wto.Placement.Quota.{check_quota}
use wto.Placement.Gates.{has_scheduling_gate}
use wto.Placement.Gates.Laws.{has-remove_scheduling_gate}
use wto.Placement.Reconcile.{placement_of, apply_placement, reconcile}
use wto.Placement.Reconcile.Safety.{
  OnlyEvent, MayUngate, IsPatch, reconcile_gated, reconcile_unmanaged,
}
use wto.Placement.Reconcile.Progress.{placed, reconcile_places}

module _ {Q W : Type 0} (ops : Quantities Q) (client : PlacementClient Q W) (recorder : Recorder W)
    (req : NamespacedName) where
  -- The states between the reconciles of a request, while others act on the cluster: each entry is
  -- what happens before the next reconcile.
  unfoldable pub retries : List (W → W) → W → W
  retries [] w = w
  retries (others ∷ rest) w = retries rest (reconcile ops client recorder req (others w)).1

  -- Others leave the pod alone.
  abbrev pub LeavesPod : (W → W) → Type 0
  LeavesPod others = (w : W) → client.get_pod req (others w) ≡ client.get_pod req w

  -- The pod is there without the gate.
  abbrev pub IsFree : W → Type 0
  IsFree w = (p : Pod Q) × (client.get_pod req w ≡ found p) × (has_scheduling_gate p ≡ false)

  retries-append : (es fs : List (W → W)) (w : W) → retries (es ++ fs) w ≡ retries fs (retries es w)
  unfolding retries
  retries-append [] fs w = refl
  retries-append (e ∷ es) fs w = retries-append es fs _

  module _ (server : IsPodServer client recorder) where
    IsFree-reconcile : (w : W) → IsFree w → IsFree (reconcile ops client recorder req w).1
    IsFree-reconcile w (p, there, free) = (
      p,
      ap (λ (r : Result ReconcileResult × W). client.get_pod req r.1)
            (reconcile_unmanaged ops client recorder req w p there (inl free))
          ∙ there,
      free,
    )

    IsFree-others : (others : W → W) (w : W) → LeavesPod others → IsFree w → IsFree (others w)
    IsFree-others others w quiet (p, there, free) = (p, quiet w ∙ there, free)

    IsFree-retries :
        (es : List (W → W)) (w : W) → All LeavesPod es → IsFree w → IsFree (retries es w)
    unfolding retries
    IsFree-retries [] w quiet free = free
    IsFree-retries (e ∷ es) w (quiet, rest) free =
        IsFree-retries es _ rest (IsFree-reconcile (e w) (IsFree-others e w quiet free))

    pod_after_event :
        (w w' : W)
        → OnlyEvent ops client recorder w w'
        → client.get_pod req w' ≡ client.get_pod req w
    pod_after_event w w' (inl same) = ap (client.get_pod req) same
    pod_after_event w w' (inr (object, kind, reason, text, same)) =
        ap (client.get_pod req) same ∙ server.recorded req object kind reason text w

    -- The patch of a reconcile is refused, and the pod is as it was, or it is accepted.
    pod_after_patch :
        (w : W) (pod new : Pod Q) (out : Result ReconcileResult × W) (refusal : Option Error)
        (w' : W)
        → client.get_pod req w ≡ found pod
        → client.patch_pod pod new w ≡ (refusal, w')
        → has_scheduling_gate new ≡ false
        → OnlyEvent ops client recorder (client.patch_pod pod new w).1 out.1
        → (client.get_pod req out.1 ≡ found pod) ⊎ IsFree out.1
    pod_after_patch w pod new out none w' there patch free event = inr (
      new,
      pod_after_event _ out.1 event
          ∙ ap (λ (r : Option Error × W). client.get_pod req r.1) patch
          ∙ server.patched req pod new w w' there patch,
      free,
    )
    pod_after_patch w pod new out (some e) w' there patch free event = inl (
        pod_after_event _ out.1 event
        ∙ ap (λ (r : Option Error × W). client.get_pod req r.1) patch
        ∙ server.refused req pod new e w w' patch
        ∙ there)

    module _ (pod : Pod Q) (name : String) (gated : has_scheduling_gate pod ≡ true)
        (annotated : lookup profile_annotation pod.annotations ≡ some name) where
      -- The pod waits, or it is free.
      abbrev IsAlive : W → Type 0
      IsAlive w = (client.get_pod req w ≡ found pod) ⊎ IsFree w

      IsAlive-reconcile : (w : W) → IsAlive w → IsAlive (reconcile ops client recorder req w).1
      IsAlive-reconcile w (inr free) = inr (IsFree-reconcile w free)
      IsAlive-reconcile w (inl there) =
          by_outcome _ (reconcile_gated ops client recorder req w pod name there gated annotated)
        where
          by_outcome :
              {out : Result ReconcileResult × W} (got : Fetch (WorkloadProfile Q))
              → (OnlyEvent ops client recorder w out.1 × ((n : _) × (out.0 ≡ ok (requeue_after n))))
                ⊎ ((new : Pod Q) × MayUngate ops client recorder w pod new got
                    × IsPatch ops client recorder w pod new out
                    × (has_scheduling_gate new ≡ false))
              → IsAlive out.1
          by_outcome got (inl (event, _)) = inl (pod_after_event w _ event ∙ there)
          by_outcome {out} got (inr (new, may, patch, free)) =
              pod_after_patch w pod new out (client.patch_pod pod new w).0
                (client.patch_pod pod new w).1 there refl free patch.after

      IsAlive-others : (others : W → W) (w : W) → LeavesPod others → IsAlive w → IsAlive (others w)
      IsAlive-others others w quiet (inl there) = inl (quiet w ∙ there)
      IsAlive-others others w quiet (inr free) = inr (IsFree-others others w quiet free)

      IsAlive-retries :
          (es : List (W → W)) (w : W) → All LeavesPod es → IsAlive w → IsAlive (retries es w)
      unfolding retries
      IsAlive-retries [] w quiet alive = alive
      IsAlive-retries (e ∷ es) w (quiet, rest) alive =
          IsAlive-retries es _ rest (IsAlive-reconcile (e w) (IsAlive-others e w quiet alive))

      -- The profile is there and passes the quota check, and the patch is accepted.
      pub record HasRoom (w : W) : Type 0 where
        pub profile : WorkloadProfile Q
        pub fetched :
            client.get_profile (record { namespace = pod.namespace; name = name }) w ≡ found profile
        pub within_quota : check_quota ops (client.list_quotas pod.namespace w) profile ≡ none
        pub w' : W
        pub accepted : client.patch_pod pod (placed pod profile) w ≡ (none, w')

      IsFree-with_room :
          (w : W) → HasRoom w → IsAlive w → IsFree (reconcile ops client recorder req w).1
      IsFree-with_room w room (inr free) = IsFree-reconcile w free
      IsFree-with_room w room (inl there) =
          let done =
            reconcile_places ops client recorder server req w room.w' pod name room.profile there
              gated annotated room.fetched room.within_quota room.accepted in
          (
            placed pod room.profile,
            done.1,
            has-remove_scheduling_gate (apply_placement pod (placement_of room.profile)),
          )

      -- On a server that gives back what was patched and keeps what it refused: however often a
      -- gated pod that names a profile is reconciled, and whatever others do in between but to the
      -- pod, if at one of the reconciles the profile is there and passes the quota check and the
      -- patch is accepted, the pod is there without the gate after that one and after all later
      -- ones.
      pub retries-IsFree :
          (before after : List (W → W)) (others : W → W) (w : W)
          → client.get_pod req w ≡ found pod
          → All LeavesPod before
          → LeavesPod others
          → All LeavesPod after
          → HasRoom (others (retries before w))
          → IsFree (retries (before ++ others ∷ after) w)
      unfolding retries
      retries-IsFree before after others w there quiet now quiet' room =
          rw (retries-append before (others ∷ after) w) (
            IsFree-retries after _ quiet' (
              IsFree-with_room (others (retries before w)) room
                (IsAlive-others others _ now (IsAlive-retries before w quiet (inl there)))))
