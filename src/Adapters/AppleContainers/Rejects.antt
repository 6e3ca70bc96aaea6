-- ===== src/Adapters/AppleContainers/Rejects.antt =====
-- packages/adapters/apple-containers: a specification with a GPU.
use sandstorm_monorepo.Common.{String, true, some, ◌≡◌}
use sandstorm_monorepo.Common.Number.{JsNumber}
use sandstorm_monorepo.Common.Text.{JsText}
use sandstorm_monorepo.Common.Io.{settle}
use sandstorm_monorepo.Common.Io.Logic.{
  Ends, settle-Ends, bind-Ends, then-Ends, on_throw-Ends, any-Ends, never-Ends,
}
use sandstorm_monorepo.Core.Sandbox.{SandboxSpec}
use sandstorm_monorepo.Adapters.World.{RunStamp, is_true}
use sandstorm_monorepo.Adapters.AppleContainers.Commands.{AppleContainersConfig, estimate_cost}
use sandstorm_monorepo.Adapters.AppleContainers.{Host, AppleWorld, run_in, run}

module _ {A R : Type 0} ⦃n : JsNumber A⦄ ⦃t : JsText A⦄ (host : Host A R) (spec : SandboxSpec A)
    (gpu : is_true spec.gpu ≡ true) where
  cost-Ends :
      (config : AppleContainersConfig A) (duration : A)
      → Ends {W = AppleWorld host}
          (λ _. Unit {0})
          (settle (estimate_cost config (record spec { timeout = some duration })))
          (λ _ _. ⊥)
          (λ _. Unit {0})
  cost-Ends config duration = rw gpu (settle-Ends _ (λ w p. tt))

  run_in-Ends :
      (stamp : RunStamp A) (tmp temp_id container_id : String)
      → Ends
          (λ _. Unit {0})
          (run_in host stamp tmp temp_id spec container_id)
          (λ _ _. ⊥)
          (λ _. Unit {0})
  unfolding run_in
  run_in-Ends stamp tmp temp_id container_id = then-Ends (any-Ends _) (
      bind-Ends (any-Ends _) λ file. bind-Ends (any-Ends _) λ result.
        bind-Ends (any-Ends _)
          λ config. bind-Ends (cost-Ends config stamp.duration) λ cost. never-Ends _)

  -- A run of the Apple Containers adapter for a specification with a GPU throws, from every state and
  -- whatever the container program answers.
  pub apple_run-throws :
      (stamp : RunStamp A) (tmp temp_id : String)
      → Ends (λ _. Unit {0}) (run host stamp tmp temp_id spec) (λ _ _. ⊥) (λ _. Unit {0})
  unfolding run
  apple_run-throws stamp tmp temp_id =
      on_throw-Ends _
        (then-Ends (any-Ends _)
          (bind-Ends (any-Ends _) λ container_id. run_in-Ends stamp tmp temp_id container_id))
        (any-Ends _)
