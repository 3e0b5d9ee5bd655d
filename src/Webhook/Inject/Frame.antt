-- ===== src/Webhook/Inject/Frame.antt =====
-- What the two injections leave alone.
use wto.Common.{String, ◌≡◌, ◌∙◌, some, List, [], ◌∷◌, arith, Option-cases, inl, inr}
use wto.Api.{Pod, DeviceClaim, WorkloadProfileSpec}
use wto.Webhook.Inject.{inject_resources, inject_claim, inject_claims, inject_dra_claims}

-- Everything of a pod but its containers and its resource claims.
pub record IsFramed {Q : Type 0} (pod pod' : Pod Q) : Type 0 where
  pub name : pod'.name ≡ pod.name
  pub namespace : pod'.namespace ≡ pod.namespace
  pub labels : pod'.labels ≡ pod.labels
  pub annotations : pod'.annotations ≡ pod.annotations
  pub scheduling_gates : pod'.scheduling_gates ≡ pod.scheduling_gates
  pub node_selector : pod'.node_selector ≡ pod.node_selector
  pub tolerations : pod'.tolerations ≡ pod.tolerations

module _ {Q : Type 0} where
  inject_claim-IsFramed :
      (name : String) (spec : WorkloadProfileSpec Q) (claim : DeviceClaim) (pod pod' : Pod Q)
      → inject_claim name spec claim pod ≡ some pod'
      → IsFramed pod pod'
  unfolding inject_claim
  inject_claim-IsFramed name spec claim pod pod' h = ground arith

  IsFramed-trans : {a b c : Pod Q} → IsFramed a b → IsFramed b c → IsFramed a c
  IsFramed-trans f g = record {
    name = g.name ∙ f.name;
    namespace = g.namespace ∙ f.namespace;
    labels = g.labels ∙ f.labels;
    annotations = g.annotations ∙ f.annotations;
    scheduling_gates = g.scheduling_gates ∙ f.scheduling_gates;
    node_selector = g.node_selector ∙ f.node_selector;
    tolerations = g.tolerations ∙ f.tolerations;
  }

  inject_claims-IsFramed :
      (name : String) (spec : WorkloadProfileSpec Q) (claims : List DeviceClaim) (pod pod' : Pod Q)
      → inject_claims name spec claims pod ≡ some pod'
      → IsFramed pod pod'
  unfolding inject_claims
  inject_claims-IsFramed name spec [] pod pod' h = ground arith
  inject_claims-IsFramed name spec (claim ∷ claims) pod pod' h =
      elim (Option-cases (inject_claim name spec claim pod)) [
        | inl panic ↦ absurd (ground (arith, panic))
        | inr (mid, step) ↦
            IsFramed-trans (inject_claim-IsFramed name spec claim pod mid step)
              (inject_claims-IsFramed name spec claims mid pod' (rw (step, inject_claims) at h))
      ]

  pub inject_dra_claims-IsFramed :
      (name : String) (spec : WorkloadProfileSpec Q) (pod pod' : Pod Q)
      → inject_dra_claims (inject_resources pod spec).0 name spec ≡ some pod'
      → IsFramed pod pod'
  unfolding inject_dra_claims
  inject_dra_claims-IsFramed name spec pod pod' h =
      IsFramed-trans {b = (inject_resources pod spec).0} (unfold inject_resources in ground arith)
        (inject_claims-IsFramed name spec spec.device_claims (inject_resources pod spec).0 pod' h)
