-- ===== src/Arbitrage/Engine/Routing.antt =====
-- Where the engine's estimate comes from.
use sandstorm_monorepo.Common.{
  String, ◌≡◌, refl, ap, ◌≢◌, ◌⊎◌, inl, inr, true, false, Option, none, some, Bool-cases,
}
use sandstorm_monorepo.Common.Number.{JsNumber, ◌≽◌}
use sandstorm_monorepo.Common.Result.{Result, ok, throw}
use sandstorm_monorepo.Core.Sandbox.{SandboxSpec, SandboxConstraints}
use sandstorm_monorepo.MlRouter.Types.{PredictionResult, IMlRouter}
use sandstorm_monorepo.Arbitrage.Rules.{select_rule_based_provider, estimate_rule_based}
use sandstorm_monorepo.Arbitrage.Engine.{
  Strategy, ml, rule_based, hybrid, ArbitrageEngine, OptimalEstimate, from_prediction, from_rules,
  by_rules, ml_estimate, hybrid_estimate, estimate_with, estimate_optimal_provider,
}

module _ {A : Type 0} ⦃n : JsNumber A⦄ where
  -- A prediction that a strategy, a router (if there is one) and a threshold take as it is.
  pub data Predicted (strategy : Strategy) (ml_router : Option (IMlRouter A)) (threshold : A)
      (spec : SandboxSpec A) (constraints : SandboxConstraints A) (p : PredictionResult A)
      : Type 0 where
    predicted :
        (router : IMlRouter A)
        → ml_router ≡ some router
        → router.predict spec constraints ≡ ok p
        → (strategy ≡ ml) ⊎ ((strategy ≡ hybrid) × ((p.confidence ≽ threshold) ≡ true))
        → Predicted strategy ml_router threshold spec constraints p

  -- The estimate `e` is such a prediction, unchanged, or there is none and it is the estimate for
  -- the rules' choice.
  pub data Source (strategy : Strategy) (ml_router : Option (IMlRouter A)) (threshold : A)
      (spec : SandboxSpec A) (constraints : SandboxConstraints A) (e : OptimalEstimate A)
      : Type 0 where
    by_model :
        (p : PredictionResult A)
        → Predicted strategy ml_router threshold spec constraints p
        → e ≡ from_prediction p
        → Source strategy ml_router threshold spec constraints e
    by_rule :
        (s : Strategy) (version : Option String)
        → s ≢ ml
        → e
          ≡ from_rules
              (estimate_rule_based spec (select_rule_based_provider spec constraints))
              s
              version
        → ((p : PredictionResult A) → Predicted strategy ml_router threshold spec constraints p → ⊥)
        → Source strategy ml_router threshold spec constraints e

  module _ (spec : SandboxSpec A) (constraints : SandboxConstraints A) (threshold : A) where
    no_router :
        (s : Strategy) (p : PredictionResult A) → Predicted s none threshold spec constraints p → ⊥
    no_router s p (predicted r same answered _) = cc

    rules_only :
        (router : Option (IMlRouter A)) (p : PredictionResult A)
        → Predicted rule_based router threshold spec constraints p
        → ⊥
    rules_only router p (predicted r same answered (inl e)) = cc
    rules_only router p (predicted r same answered (inr (e, _))) = cc

    ml-Source :
        (router : IMlRouter A) (r : Result (PredictionResult A))
        → router.predict spec constraints ≡ r
        → Source ml (some router) threshold spec constraints (ml_estimate spec constraints r)
    unfolding by_rules
    ml-Source router (ok p) e = by_model p (predicted router refl e (inl refl)) refl
    ml-Source router (throw s) e = by_rule rule_based none (cc) refl none_fits
      where
        none_fits :
            (p : PredictionResult A) → Predicted ml (some router) threshold spec constraints p → ⊥
        none_fits p (predicted r same answered _) =
            let k : r ≡ router = cc in cc (ap (λ (x : IMlRouter A). x.predict spec constraints) k)

    hybrid-Source :
        (router : IMlRouter A) (r : Result (PredictionResult A))
        → router.predict spec constraints ≡ r
        → Source hybrid
            (some router)
            threshold
            spec
            constraints
            (hybrid_estimate threshold spec constraints r)
    unfolding by_rules
    hybrid-Source router (throw s) e = by_rule rule_based none (cc) refl none_fits
      where
        none_fits :
            (p : PredictionResult A)
            → Predicted hybrid (some router) threshold spec constraints p
            → ⊥
        none_fits p (predicted r same answered _) =
            let k : r ≡ router = cc in cc (ap (λ (x : IMlRouter A). x.predict spec constraints) k)
    hybrid-Source router (ok p) e = elim (Bool-cases (p.confidence ≽ threshold)) [
      | inl sure ↦ by_model p (predicted router refl e (inr (refl, sure))) (rw sure)
      | inr unsure ↦ by_rule hybrid (some p.model_version) (cc) (rw unsure) (none_fits unsure)
    ]
      where
        none_fits :
            (p.confidence ≽ threshold) ≡ false
            → (q : PredictionResult A) → Predicted hybrid (some router) threshold spec constraints q
            → ⊥
        none_fits unsure q (predicted r same answered (inl is_ml)) = cc
        none_fits unsure q (predicted r same answered (inr (_, sure))) =
            let k : r ≡ router = cc in
            let l : q ≡ p = cc (ap (λ (x : IMlRouter A). x.predict spec constraints) k) in
            cc (ap (λ (x : PredictionResult A). x.confidence ≽ threshold) l)

    estimate_with-Source :
        (strategy : Strategy) (router : Option (IMlRouter A))
        → Source strategy router threshold spec constraints
            (estimate_with strategy router threshold spec constraints)
    unfolding estimate_with by_rules
    estimate_with-Source ml (some router) = ml-Source router _ refl
    estimate_with-Source hybrid (some router) = hybrid-Source router _ refl
    estimate_with-Source rule_based router =
        by_rule rule_based none (cc) refl λ p. rules_only router p
    estimate_with-Source ml none = by_rule rule_based none (cc) refl λ p. no_router ml p
    estimate_with-Source hybrid none = by_rule rule_based none (cc) refl λ p. no_router hybrid p

  -- The engine's estimate is the router's prediction exactly when the strategy is `ml`, or
  -- `hybrid` with a confidence that reaches the threshold, there is a router, and it does not
  -- throw; in all other cases it is the estimate for the provider that the rules choose.
  pub estimate_optimal_provider-Source :
      (engine : ArbitrageEngine A) (spec : SandboxSpec A) (constraints : SandboxConstraints A)
      → Source engine.strategy engine.ml_router engine.confidence_threshold spec constraints
          (estimate_optimal_provider engine spec constraints)
  unfolding estimate_optimal_provider
  estimate_optimal_provider-Source engine spec constraints =
      estimate_with-Source spec constraints engine.confidence_threshold engine.strategy
        engine.ml_router
