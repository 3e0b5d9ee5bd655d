-- ===== src/Manager.antt =====
-- cmd/main.go, with the SetupWithManager of each controller: what is set up, and in which order.
pub mod Steps
use wto.Common.{ℕ, String, Option, none, some, List, [], ◌∷◌}
use wto.Api.{Error, wrapped}
use wto.Client.{DefaultsClient}
use wto.Defaults.{ensure_defaults}

-- The flags, with their defaults.
pub record Flags : Type 0 where
  pub cert_dir : String
  pub metrics_addr : String
  pub webhook_port : ℕ

abbrev pub default_flags : Flags
default_flags = record { cert_dir = "/tmp/tls"; metrics_addr = ":8080"; webhook_port = 9443 }

-- The kinds that the controllers are for.
pub data ObjectKind : Type 0 where
  pods profiles templates claim_templates type_configs : ObjectKind

-- What ctrl.NewControllerManagedBy is given: For, Owns and Watches.
pub record ControllerSetup : Type 0 where
  pub for : ObjectKind
  pub owns : List ObjectKind
  pub watches : List ObjectKind

-- What main uses of the framework. Each call gives `none` or its error, and the state after it;
-- GetConfigOrDie ends the process with code 1 on an error, as main does on the other errors.
pub record Framework (W : Type 0) : Type 0 where
  pub parse_flags : Flags → W → Flags
  pub get_config : W → Option Error × W
  pub new_manager : Flags → W → Option Error × W
  pub index_field : ObjectKind → String → W → Option Error × W
  pub complete : ControllerSetup → W → Option Error × W
  pub new_controller : String → W → Option Error × W
  pub new_discovery_client : W → Option Error × W
  pub register_webhook : String → W → W
  pub add_runnable : (W → Option Error × W) → W → Option Error × W
  pub start : W → Option Error × W

pub data Exit : Type 0 where
  ended : Exit
  exited : ℕ → Exit

-- `if err := step(); err != nil { os.Exit(1) }`, and what comes after it
abbrev pub after_step : {W : Type 0} → Option Error × W → (W → Exit × W) → Exit × W
after_step (some e, w) next = (exited 1, w)
after_step (none, w) next = next w

-- the steps one after the other
unfoldable pub run_steps : {W : Type 0} → List (W → Option Error × W) → W → Exit × W
run_steps [] w = (ended, w)
run_steps (step ∷ steps) w = after_step (step w) (run_steps steps)

module _ {W : Type 0} (framework : Framework W) where
  -- PlacementReconciler.SetupWithManager
  unfoldable pub setup_placement : W → Option Error × W
  setup_placement w =
      framework.complete (record { for = ObjectKind.pods; owns = []; watches = [] }) w

  -- the builder of ProfileReconciler.SetupWithManager, after the index
  build_profile : Option Error × W → Option Error × W
  build_profile (some e, w) = (some (wrapped "index templateRef: %w" [] e), w)
  build_profile (none, w) =
      framework.complete
        (record {
          for = ObjectKind.profiles;
          owns = ObjectKind.claim_templates ∷ [];
          watches = ObjectKind.templates ∷ [];
        })
        w

  -- ProfileReconciler.SetupWithManager
  unfoldable pub setup_profile : W → Option Error × W
  unfolding build_profile
  setup_profile w = build_profile (framework.index_field ObjectKind.profiles ".spec.templateRef" w)

  wrap_propagation : Option Error × W → Option Error × W
  wrap_propagation (some e, w) = (some (wrapped "creating propagation controller: %w" [] e), w)
  wrap_propagation (none, w) = (none, w)

  -- NewPropagationReconciler
  unfoldable pub new_propagation : W → Option Error × W
  unfolding wrap_propagation
  new_propagation w = wrap_propagation (framework.new_controller "propagation" w)

  -- WorkloadTypeReconciler.SetupWithManager
  unfoldable pub setup_workload_type : W → Option Error × W
  setup_workload_type w =
      framework.complete (record { for = ObjectKind.type_configs; owns = []; watches = [] }) w

  module _ {Raw : Type 0} (defaults : DefaultsClient Raw W) where
    -- the runnable that applies the defaults, whose error is only logged
    unfoldable pub bootstrap : W → Option Error × W
    bootstrap w = (none, (ensure_defaults defaults w).1)

    -- the calls of main whose errors end it, in their order
    unfoldable pub main_steps : Flags → List (W → Option Error × W)
    main_steps flags =
        framework.get_config
        ∷ framework.new_manager flags
        ∷ setup_placement
        ∷ setup_profile
        ∷ new_propagation
        ∷ framework.get_config
        ∷ framework.new_discovery_client
        ∷ setup_workload_type
        ∷ (λ w. framework.add_runnable bootstrap (framework.register_webhook "/mutate-pods" w))
        ∷ framework.start
        ∷ []

    -- main
    unfoldable pub main : W → Exit × W
    main w = run_steps (main_steps (framework.parse_flags default_flags w)) w
