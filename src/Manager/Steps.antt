-- ===== src/Manager/Steps.antt =====
-- How main ends.
use wto.Common.{◌≡◌, Option, none, some, List, [], ◌∷◌, ◌++◌}
use wto.Api.{Error}
use wto.Client.{DefaultsClient}
use wto.Defaults.{ensure_defaults}
use wto.Manager.{Flags, ObjectKind, Framework, Exit, exited}

module _ {W : Type 0} where
  -- The steps succeed one after the other, and lead from one state to another.
  pub data Succeed : List (W → Option Error × W) → W → W → Type 0 where
    finished : {w : W} → Succeed [] w w
    succeeded :
        {step : W → Option Error × W} {steps : List (W → Option Error × W)} {u v w : W}
        → step u ≡ (none, v)
        → Succeed steps v w
        → Succeed (step ∷ steps) u w

  -- The first step that fails, after those that succeeded, and before those that are not run.
  pub record Stopped (steps : List (W → Option Error × W)) (w : W) (out : Exit × W) : Type 0 where
    pub before : List (W → Option Error × W)
    pub step : W → Option Error × W
    pub rest : List (W → Option Error × W)
    pub split : steps ≡ before ++ step ∷ rest
    pub at : W
    pub succeed : Succeed before w at
    pub error : Error
    pub failed : step at ≡ (some error, out.1)
    pub code : out.0 ≡ exited 1

module _ {Raw W : Type 0} (framework : Framework W) (defaults : DefaultsClient Raw W) where
  -- What a run of main that ends well has called, each call in the state that the one before it
  -- left: the manager, the three controllers with the index of the profiles, the propagation
  -- controller before the one that registers with it, the webhook and the defaults, and at last the
  -- start.
  pub record IsStarted (flags : Flags) (w w' : W) : Type 0 where
    pub w1 : W
    pub w2 : W
    pub w3 : W
    pub w4 : W
    pub w5 : W
    pub w6 : W
    pub w7 : W
    pub w8 : W
    pub w9 : W
    pub w10 : W
    pub configured : framework.get_config w ≡ (none, w1)
    pub created : framework.new_manager flags w1 ≡ (none, w2)
    pub placement :
        framework.complete (record { for = ObjectKind.pods; owns = []; watches = [] }) w2
        ≡ (none, w3)
    pub indexed : framework.index_field ObjectKind.profiles ".spec.templateRef" w3 ≡ (none, w4)
    pub profile :
        framework.complete
          (record {
            for = ObjectKind.profiles;
            owns = ObjectKind.claim_templates ∷ [];
            watches = ObjectKind.templates ∷ [];
          })
          w4
        ≡ (none, w5)
    pub propagation : framework.new_controller "propagation" w5 ≡ (none, w6)
    pub configured_again : framework.get_config w6 ≡ (none, w7)
    pub discovery : framework.new_discovery_client w7 ≡ (none, w8)
    pub workload_type :
        framework.complete (record { for = ObjectKind.type_configs; owns = []; watches = [] }) w8
        ≡ (none, w9)
    pub bootstrapped :
        framework.add_runnable
          (λ u. (none, (ensure_defaults defaults u).1))
          (framework.register_webhook "/mutate-pods" w9)
        ≡ (none, w10)
    pub started : framework.start w10 ≡ (none, w')
