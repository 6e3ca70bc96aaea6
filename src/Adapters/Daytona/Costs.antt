-- ===== src/Adapters/Daytona/Costs.antt =====
-- packages/adapters/daytona/src: the configuration, and what a run costs and how long it takes to start.
use sandstorm_monorepo.Common.{String, Bool, Option, ltb}
use sandstorm_monorepo.Common.Number.{JsNumber, ◌⊗◌, ◌⊘◌, num, dec, or_number}
use sandstorm_monorepo.Core.Sandbox.{SandboxSpec}
use sandstorm_monorepo.Adapters.World.{has_text, is_true, size_of, exceeds, times_if, plus_if}

pub record DaytonaConfig (A : Type 0) : Type 0 where
  pub api_key : String
  pub api_url : String
  pub default_timeout : A
  pub default_workspace_template : Option String
  pub region : Option String
  pub enable_telemetry : Bool

module _ {A : Type 0} ⦃n : JsNumber A⦄ where
  abbrev pub get_quota : A × A
  get_quota = (num 0, num 10000)

  unfoldable pub estimate_cost : DaytonaConfig A → SandboxSpec A → A
  estimate_cost config spec =
      let minutes = n.ceil (or_number spec.timeout config.default_timeout ⊘ num 60000) in
      let multiplier = times_if (is_true spec.stateful) (dec 12 1) (
        times_if (is_true spec.gpu) (num 5) (
          times_if (exceeds spec.memory (num 2048)) (dec 13 1)
            (times_if (exceeds spec.cpu (num 2)) (dec 15 1) (num 1)))) in
      dec 1 2 ⊗ minutes ⊗ multiplier

  unfoldable pub estimate_latency : SandboxSpec A → A
  estimate_latency spec =
      plus_if (ltb 0 (size_of spec.requirements)) (num (size_of spec.requirements) ⊗ num 200) (
        plus_if (has_text spec.git_repo) (num 2000)
          (plus_if (has_text spec.dockerfile) (num 1000) (num 90)))

  unfoldable pub calculate_actual_cost : A → SandboxSpec A → A
  calculate_actual_cost duration spec =
      let minutes = n.ceil (duration ⊘ num 60000) in
      times_if (is_true spec.gpu) (num 5) (
        times_if (exceeds spec.memory (num 2048)) (dec 13 1)
          (times_if (exceeds spec.cpu (num 2)) (dec 15 1) (dec 1 2 ⊗ minutes)))
