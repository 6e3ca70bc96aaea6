-- ===== src/Arbitrage/Rules.antt =====
-- packages/arbitrage/src/arbitrage-engine.ts: `selectRuleBasedProvider` and `estimateRuleBased`.
pub mod Choice
pub mod Constraints
use sandstorm_monorepo.Common.{
  Bool, false, ◌&&◌, not, Option, none, some, List, [], ◌∷◌, ltb, length, filter, includes,
  if◌then◌else◌,
}
use sandstorm_monorepo.Common.Number.{JsNumber, ◌⊕◌, ◌⊖◌, ◌⊗◌, ◌⊘◌, ◌≻◌, num, dec, or_number}
use sandstorm_monorepo.Core.Provider.{
  SandboxProvider, e2b, modal, daytona, morph, kubernetes, custom, provider_eq,
}
use sandstorm_monorepo.Core.Sandbox.{SandboxSpec, SandboxConstraints}

-- `flag ? … : …` on an optional flag.
abbrev pub is_set : Option Bool → Bool
is_set none = false
is_set (some b) = b

abbrev pub all_candidates : List SandboxProvider
all_candidates = e2b ∷ modal ∷ daytona ∷ morph ∷ kubernetes ∷ custom ∷ []

-- A chain of `if (candidates.includes(p)) return p`, then the code that follows it.
unfoldable pub first_listed :
    List SandboxProvider → List SandboxProvider → SandboxProvider → SandboxProvider
first_listed [] candidates rest = rest
first_listed (p ∷ ps) candidates rest =
    if includes p candidates then p else first_listed ps candidates rest

-- `if (condition) { … }` round such a chain.
unfoldable pub try_rule :
    Bool → List SandboxProvider → List SandboxProvider → SandboxProvider → SandboxProvider
try_rule condition ps candidates rest = if condition then first_listed ps candidates rest else rest

abbrev pub excluded_by : Option (List SandboxProvider) → SandboxProvider → Bool
excluded_by none p = false
excluded_by (some ps) p = includes p ps

-- The candidates that `excludeProviders` leaves.
unfoldable pub allowed_candidates : Option (List SandboxProvider) → List SandboxProvider
allowed_candidates excluded = filter (λ p. not (excluded_by excluded p)) all_candidates

-- `if (preferred.length > 0) candidates = preferred`
abbrev pub preferred_or : List SandboxProvider → List SandboxProvider → List SandboxProvider
preferred_or [] candidates = candidates
preferred_or (p ∷ ps) candidates = p ∷ ps

unfoldable pub apply_preference :
    Option (List SandboxProvider) → List SandboxProvider → List SandboxProvider
apply_preference none candidates = candidates
apply_preference (some ps) candidates =
    preferred_or (filter (λ p. includes p candidates) ps) candidates

-- `candidates[0] || 'e2b'`
abbrev pub first_or_e2b : List SandboxProvider → SandboxProvider
first_or_e2b [] = e2b
first_or_e2b (p ∷ ps) = p

pub record Estimate (A : Type 0) : Type 0 where
  pub provider : SandboxProvider
  pub estimated_cost : A
  pub estimated_latency : A
  pub confidence : A

abbrev pub more_than_five : {B : Type 0} → Option (List B) → Bool
more_than_five none = false
more_than_five (some xs) = ltb 5 (length xs)

module _ {A : Type 0} ⦃n : JsNumber A⦄ where
  -- `value && value > limit`
  abbrev pub exceeds : Option A → A → Bool
  exceeds none limit = false
  exceeds (some v) limit = n.truthy v && (v ≻ limit)

  -- The rules, in order, over the candidates that the constraints leave.
  unfoldable pub choose_by_rules : SandboxSpec A → List SandboxProvider → SandboxProvider
  choose_by_rules spec candidates =
      try_rule (is_set spec.gpu) (modal ∷ kubernetes ∷ []) candidates (
        try_rule (is_set spec.stateful) (kubernetes ∷ daytona ∷ []) candidates (
          try_rule (exceeds spec.timeout (num 300000)) (daytona ∷ modal ∷ []) candidates (
            try_rule (exceeds spec.memory (num 8192)) (modal ∷ kubernetes ∷ []) candidates (
              try_rule (more_than_five spec.requirements) (e2b ∷ modal ∷ []) candidates
                (first_listed (e2b ∷ modal ∷ []) candidates (first_or_e2b candidates))))))

  unfoldable pub candidates_for : SandboxConstraints A → List SandboxProvider
  candidates_for constraints =
      apply_preference constraints.preferred_providers
        (allowed_candidates constraints.exclude_providers)

  unfoldable pub select_rule_based_provider : SandboxSpec A → SandboxConstraints A → SandboxProvider
  select_rule_based_provider spec constraints = choose_by_rules spec (candidates_for constraints)

  abbrev pub base_cost : SandboxProvider → A
  base_cost e2b = dec 1 3
  base_cost modal = dec 8 4
  base_cost daytona = dec 15 4
  base_cost morph = dec 12 4
  base_cost kubernetes = dec 5 4
  base_cost custom = dec 2 3
  base_cost _ = dec 1 3

  abbrev pub base_latency : SandboxProvider → A
  base_latency e2b = num 2000
  base_latency modal = num 1500
  base_latency daytona = num 3000
  base_latency morph = num 2500
  base_latency kubernetes = num 1000
  base_latency custom = num 5000
  base_latency _ = num 3000

  unfoldable pub estimate_rule_based : SandboxSpec A → SandboxProvider → Estimate A
  estimate_rule_based spec provider =
      let cpu_multiplier = or_number spec.cpu (num 1) ⊘ num 2 in
      let memory_multiplier = or_number spec.memory (num 512) ⊘ num 1024 in
      let time_multiplier = or_number spec.timeout (num 30000) ⊘ num 30000 in
      let gpu_multiplier = if is_set spec.gpu then num 10 else num 1 in
      let gpu_delay = if is_set spec.gpu then dec 15 1 else num 1 in
      record {
        provider = provider;
        estimated_cost =
            base_cost provider
            ⊗ cpu_multiplier
            ⊗ memory_multiplier
            ⊗ time_multiplier
            ⊗ gpu_multiplier;
        estimated_latency =
            base_latency provider ⊗ (num 1 ⊕ (cpu_multiplier ⊖ num 1) ⊗ dec 1 1) ⊗ gpu_delay;
        confidence = dec 6 1;
      }
