-- ===== src/Arbitrage/Engine.antt =====
-- packages/arbitrage/src/arbitrage-engine.ts: the class `ArbitrageEngine`. The calls that the
-- engine makes are arguments: the router's `predict`, which the state holds, and `isAvailable` of
-- a provider, whose outcome for this call the provider's record holds.
pub mod Select
pub mod Lifecycle
pub mod Routing
use sandstorm_monorepo.Common.{
  ℕ, String, Bool, true, false, ◌&&◌, ◌||◌, not, Option, none, some, List, [], ◌∷◌, ◌++◌, find,
  filter, ◌==◌, if◌then◌else◌, string_eq,
}
use sandstorm_monorepo.Common.Number.{JsNumber, ◌≺◌, ◌≻◌, ◌≽◌, num, dec, or_number}
use sandstorm_monorepo.Common.Dict.{set}
use sandstorm_monorepo.Common.Result.{Result, ok, throw, ◌>>=◌, ◌>>◌, throw_if}
use sandstorm_monorepo.Core.Provider.{SandboxProvider, provider_eq}
use sandstorm_monorepo.Core.Sandbox.{SandboxSpec, SandboxConstraints}
use sandstorm_monorepo.MlRouter.Types.{PredictionResult, IMlRouter}
use sandstorm_monorepo.Arbitrage.Rules.{Estimate, select_rule_based_provider, estimate_rule_based}

pub data Strategy : Type 0 where
  ml rule_based hybrid : Strategy

pub record ArbitrageEngineOptions (A : Type 0) : Type 0 where
  pub ml_router_url : Option String
  pub telemetry_url : Option String
  pub model_store_path : Option String
  pub default_strategy : Option Strategy
  pub confidence_threshold : Option A

-- A provider's object: `handle` tells two objects of one name apart, and `is_available` is how
-- its `isAvailable()` is settled in the call at hand.
pub record ISandboxProvider : Type 0 where
  pub name : SandboxProvider
  pub handle : ℕ
  pub is_available : Result Bool

pub record ArbitrageEngine (A : Type 0) : Type 0 where
  pub ml_router : Option (IMlRouter A)
  pub strategy : Strategy
  pub confidence_threshold : A
  pub providers : List (SandboxProvider × ISandboxProvider)
  pub options : ArbitrageEngineOptions A

pub record OptimalEstimate (A : Type 0) : Type 0 where
  pub provider : SandboxProvider
  pub estimated_cost : A
  pub estimated_latency : A
  pub confidence : A
  pub strategy : Strategy
  pub model_version : Option String

-- `text && …`: the empty text counts as absent.
abbrev pub given : Option String → Option String
given none = none
given (some s) = if s == "" then none else some s

abbrev pub or_hybrid : Option Strategy → Strategy
or_hybrid none = hybrid
or_hybrid (some s) = s

abbrev pub settled {ℓ} : {B : Type ℓ} → Result B → Option B
settled (ok b) = some b
settled (throw _) = none

module _ {A : Type 0} where
  -- Without a router the engine falls back to the rules.
  abbrev pub adopt : Option (IMlRouter A) → ArbitrageEngine A → ArbitrageEngine A
  adopt none engine = record engine { strategy = rule_based }
  adopt (some router) engine = record engine { ml_router = some router }

module _ {A : Type 0} (new_router : String → String → Result (IMlRouter A)) where
  -- The router that the options configure: none if one of them is missing, or if `new MLRouter`,
  -- which is `new_router` here, throws.
  abbrev pub configured : Option String → Option String → Option (IMlRouter A)
  configured none _ = none
  configured (some path) none = none
  configured (some path) (some url) = settled (new_router path url)

  -- `initializeMLRouter` up to its `await`.
  unfoldable pub start_router : ArbitrageEngine A → ArbitrageEngine A
  start_router engine =
      adopt
        (configured (given engine.options.model_store_path) (given engine.options.telemetry_url))
        engine

  -- The router is started if the strategy uses one and there is none yet.
  unfoldable pub start_if_needed :
      Strategy → Option (IMlRouter A) → ArbitrageEngine A → ArbitrageEngine A
  start_if_needed rule_based router engine = engine
  start_if_needed ml none engine = start_router engine
  start_if_needed hybrid none engine = start_router engine
  start_if_needed _ (some _) engine = engine

  unfoldable pub set_routing_strategy : Strategy → ArbitrageEngine A → ArbitrageEngine A
  unfolding start_if_needed
  set_routing_strategy strategy engine =
      start_if_needed strategy engine.ml_router (record engine { strategy = strategy })

module _ {A : Type 0} ⦃n : JsNumber A⦄ (new_router : String → String → Result (IMlRouter A)) where
  -- The constructor.
  unfoldable pub new_engine : ArbitrageEngineOptions A → ArbitrageEngine A
  unfolding start_if_needed
  new_engine options =
      start_if_needed new_router (or_hybrid options.default_strategy) none (record {
        ml_router = none;
        strategy = or_hybrid options.default_strategy;
        confidence_threshold = or_number options.confidence_threshold (dec 7 1);
        providers = [];
        options = options;
      })

module _ {A : Type 0} where
  -- The rest of `initializeMLRouter`, when the router's `initialize()` is rejected.
  unfoldable pub router_failed : ArbitrageEngine A → ArbitrageEngine A
  router_failed engine = record engine { strategy = rule_based }

  -- `for (const provider of providers) this.providers.set(provider.name, provider)`
  abbrev pub register : List ISandboxProvider → ArbitrageEngine A → ArbitrageEngine A
  register [] engine = engine
  register (p ∷ ps) engine =
      register ps (record engine { providers = set p.name p engine.providers })

-- `Promise.all` over the checks, then the providers that are available.
unfoldable pub check_all : List ISandboxProvider → Result (List ISandboxProvider)
check_all [] = ok []
check_all (p ∷ ps) = do
  available ← p.is_available
  rest ← check_all ps
  ok (if available then p ∷ rest else rest)

abbrev pub exclude : SandboxProvider → Option (List SandboxProvider) → List SandboxProvider
exclude p none = p ∷ []
exclude p (some ps) = ps ++ p ∷ []

abbrev pub named : SandboxProvider → ISandboxProvider → Bool
named name p = p.name == name

-- The candidate of the estimated name, or the first one "as last resort".
unfoldable pub pick_candidate : SandboxProvider → List ISandboxProvider → Result ISandboxProvider
pick_candidate name [] = throw "No available providers found"
pick_candidate name (first ∷ rest) = elim (find (named name) (first ∷ rest)) [
  | none ↦ ok first
  | some p ↦ ok p
]

-- The other providers are asked, and `next` is looked for among those that are available.
unfoldable pub fallback_among :
    SandboxProvider → SandboxProvider → List ISandboxProvider → Result ISandboxProvider
fallback_among excluded next providers = do
  candidates ← check_all (filter (λ p. not (named excluded p)) providers)
  pick_candidate next candidates

-- The given provider of the estimated name, if it is available, else the fallback.
unfoldable pub checked_or :
    Result ISandboxProvider → SandboxProvider → List ISandboxProvider → Result ISandboxProvider
checked_or fallback name providers = elim (find (named name) providers) [
  | none ↦ throw "Provider not found in available providers"
  | some p ↦ p.is_available >>= λ available. if available then ok p else fallback
]

module _ {A : Type 0} ⦃n : JsNumber A⦄ where
  unfoldable pub set_confidence_threshold : A → ArbitrageEngine A → Result (ArbitrageEngine A)
  set_confidence_threshold threshold engine = do
    throw_if (threshold ≺ num 0 || threshold ≻ num 1) "Confidence threshold must be between 0 and 1"
    ok (record engine { confidence_threshold = threshold })

  abbrev pub from_prediction : PredictionResult A → OptimalEstimate A
  from_prediction p = record {
    provider = p.provider;
    estimated_cost = p.predicted_cost;
    estimated_latency = p.predicted_latency;
    confidence = p.confidence;
    strategy = ml;
    model_version = some p.model_version;
  }

  abbrev pub from_rules : Estimate A → Strategy → Option String → OptimalEstimate A
  from_rules e strategy version = record {
    provider = e.provider;
    estimated_cost = e.estimated_cost;
    estimated_latency = e.estimated_latency;
    confidence = e.confidence;
    strategy = strategy;
    model_version = version;
  }

  -- The estimate by rules that both the hybrid and the pure branch build.
  unfoldable pub by_rules :
      SandboxSpec A → SandboxConstraints A → Strategy → Option String → OptimalEstimate A
  by_rules spec constraints strategy version =
      from_rules (estimate_rule_based spec (select_rule_based_provider spec constraints)) strategy
        version

  -- The strategies `ml` and `hybrid`, after the call of `predict`, which may have thrown.
  abbrev pub ml_estimate :
      SandboxSpec A → SandboxConstraints A → Result (PredictionResult A) → OptimalEstimate A
  ml_estimate spec constraints (ok p) = from_prediction p
  ml_estimate spec constraints (throw _) = by_rules spec constraints rule_based none

  abbrev pub hybrid_estimate :
      A → SandboxSpec A → SandboxConstraints A → Result (PredictionResult A) → OptimalEstimate A
  hybrid_estimate threshold spec constraints (ok p) =
      if p.confidence ≽ threshold
      then from_prediction p
      else by_rules spec constraints hybrid (some p.model_version)
  hybrid_estimate threshold spec constraints (throw _) = by_rules spec constraints rule_based none

  unfoldable pub estimate_with :
      Strategy → Option (IMlRouter A) → A → SandboxSpec A → SandboxConstraints A → OptimalEstimate A
  estimate_with ml (some router) threshold spec constraints =
      ml_estimate spec constraints (router.predict spec constraints)
  estimate_with hybrid (some router) threshold spec constraints =
      hybrid_estimate threshold spec constraints (router.predict spec constraints)
  estimate_with _ _ threshold spec constraints = by_rules spec constraints rule_based none

  unfoldable pub estimate_optimal_provider :
      ArbitrageEngine A → SandboxSpec A → SandboxConstraints A → OptimalEstimate A
  unfolding estimate_with
  estimate_optimal_provider engine spec constraints =
      estimate_with engine.strategy engine.ml_router engine.confidence_threshold spec constraints

  unfoldable pub select_fallback_provider :
      ArbitrageEngine A
      → SandboxSpec A
      → SandboxConstraints A
      → List ISandboxProvider
      → SandboxProvider
      → Result ISandboxProvider
  unfolding fallback_among check_all pick_candidate
  select_fallback_provider engine spec constraints providers excluded =
      let updated : SandboxConstraints A = record constraints {
        exclude_providers = some (exclude excluded constraints.exclude_providers);
      } in
      fallback_among excluded (estimate_optimal_provider engine spec updated).provider providers

  unfoldable pub select_provider :
      ArbitrageEngine A
      → SandboxSpec A
      → SandboxConstraints A
      → List ISandboxProvider
      → ArbitrageEngine A × Result ISandboxProvider
  unfolding select_fallback_provider checked_or
  select_provider before spec constraints providers =
      let engine = register providers before in
      let name = (estimate_optimal_provider engine spec constraints).provider in
      (
        engine,
        checked_or (select_fallback_provider engine spec constraints providers name) name providers,
      )
