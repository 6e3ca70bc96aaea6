-- ===== src/MlRouter/Router.antt =====
-- packages/ml-router/src/ml-router.ts: the class `MLRouter`. A loaded model is a record, since its
-- predictions come from a Python process; the telemetry service's data,
-- the time and the draws of `Math.random` are arguments.
pub mod Predict
use sandstorm_monorepo.Common.{
  ℕ, suc, ◌+◌, String, Bool, true, false, ◌&&◌, ◌||◌, not, Option, none, some, List, [], ◌∷◌, ◌++◌,
  ltb, ◌==◌, string_eq, if◌then◌else◌,
}
use sandstorm_monorepo.Common.Integer.{ℤ}
use sandstorm_monorepo.Common.Number.{JsNumber, ◌⊕◌, ◌⊗◌, ◌⊘◌, ◌≺◌, num, dec, or_number}
use sandstorm_monorepo.Common.Dict.{get, has, set}
use sandstorm_monorepo.Common.Result.{Result, ok, throw, ◌>>=◌, ◌>>◌, throw_if}
use sandstorm_monorepo.Core.Provider.{
  SandboxProvider, e2b, modal, daytona, morph, kubernetes, custom,
}
use sandstorm_monorepo.Core.Sandbox.{SandboxSpec, SandboxConstraints}
use sandstorm_monorepo.MlRouter.Types.{
  FeatureVector, PredictionResult, TrainingDataPoint, AbTestConfig, IMlRouter,
}
use sandstorm_monorepo.MlRouter.Selection.{
  get_candidate_providers, select_best_prediction, rule_based_provider_selection,
}
use sandstorm_monorepo.MlRouter.Features.{
  Host, EdgeAgentSnapshot, extract_features, extract_features_with_history, normalize_features,
}

pub record LightGbmPrediction (A : Type 0) : Type 0 where
  pub cost : A
  pub latency : A
  pub confidence : A

pub record LightGbmModel (A : Type 0) : Type 0 where
  pub version : String
  pub predict : FeatureVector A → Result (LightGbmPrediction A)

pub record MlRouter (A : Type 0) : Type 0 where
  pub active_model : Option (LightGbmModel A)
  pub ab_test_config : Option (AbTestConfig A)
  pub model_cache : List (String × LightGbmModel A)
  pub fallback_to_rule_based : Option Bool
  pub batch_size : Option ℤ

-- What one call of `predict` reads of its surroundings: the time of the call and the time that a
-- timestamp denotes, both in ms, the draw made for the k-th candidate, and the telemetry data.
pub record Surroundings (A : Type 0) : Type 0 where
  pub host : Host A
  pub now : ℕ
  pub time_of : String → ℕ
  pub random : ℕ → A
  pub telemetry : Result (List (TrainingDataPoint A) × List (EdgeAgentSnapshot A))

abbrev pub enabled_fallback : Option Bool → Bool
enabled_fallback none = false
enabled_fallback (some b) = b

abbrev pub over_by : (String → ℕ) → ℕ → Option String → Bool
over_by time_of now none = false
over_by time_of now (some t) = if t == "" then false else ltb (time_of t) now

-- What the loop over the candidates ends in: an early return, or the predictions made.
pub data Attempt (A : Type 0) : Type 0 where
  early : PredictionResult A → Attempt A
  all : List (PredictionResult A) → Attempt A

module _ {A : Type 0} ⦃n : JsNumber A⦄ where
  -- The six tables; for another provider the code reads `undefined`.
  abbrev pub base_latency : SandboxProvider → A
  base_latency e2b = num 2000
  base_latency modal = num 1500
  base_latency daytona = num 3000
  base_latency morph = num 2500
  base_latency kubernetes = num 1000
  base_latency custom = num 5000
  base_latency _ = n.nan

  abbrev pub base_cost : SandboxProvider → A
  base_cost e2b = dec 1 3
  base_cost modal = dec 8 4
  base_cost daytona = dec 15 4
  base_cost morph = dec 12 4
  base_cost kubernetes = dec 5 4
  base_cost custom = dec 2 3
  base_cost _ = n.nan

  unfoldable pub rule_based_prediction :
      Host A → SandboxSpec A → SandboxProvider → PredictionResult A
  rule_based_prediction host spec provider =
      let cpu_multiplier = or_number spec.cpu (num 1) ⊘ num 2 in
      let memory_multiplier = or_number spec.memory (num 512) ⊘ num 1024 in
      let time_multiplier = or_number spec.timeout (num 30000) ⊘ num 30000 in
      record {
        provider = provider;
        predicted_cost = base_cost provider ⊗ cpu_multiplier ⊗ memory_multiplier ⊗ time_multiplier;
        predicted_latency = base_latency provider ⊗ (num 1 ⊕ cpu_multiplier ⊗ dec 1 1);
        confidence = dec 5 1;
        features = extract_features host spec provider;
        model_version = "rule-based";
      }

  -- The model of an A/B test that is on and not over.
  unfoldable pub drawn_version : AbTestConfig A → A → String
  drawn_version config draw =
      if draw ≺ config.traffic_split
      then config.treatment_model_version
      else config.control_model_version

  unfoldable pub model_for :
      Option (AbTestConfig A)
      → Option (LightGbmModel A)
      → List (String × LightGbmModel A)
      → (String → ℕ)
      → ℕ
      → A
      → Option (LightGbmModel A)
  model_for none active cache time_of now draw = active
  model_for (some config) active cache time_of now draw =
      if not config.enabled
      then active
      else if over_by time_of now config.end_time
      then active
      else get (drawn_version config draw) cache

  unfoldable pub get_model_for_prediction :
      MlRouter A → Surroundings A → ℕ → Option (LightGbmModel A)
  unfolding model_for drawn_version
  get_model_for_prediction router around k =
      model_for router.ab_test_config router.active_model router.model_cache around.time_of
        around.now (around.random k)

  abbrev pub prediction_of :
      SandboxProvider
      → FeatureVector A
      → LightGbmModel A
      → LightGbmPrediction A
      → PredictionResult A
  prediction_of provider features model p = record {
    provider = provider;
    predicted_cost = p.cost;
    predicted_latency = p.latency;
    confidence = p.confidence;
    features = features;
    model_version = model.version;
  }

  -- The body of the loop for one candidate, with the model that it got.
  abbrev pub step_with :
      Bool
      → PredictionResult A
      → SandboxProvider
      → FeatureVector A
      → Option (LightGbmModel A)
      → Result (Attempt A)
  step_with fallback by_rules provider features none =
      if fallback
      then ok (early by_rules)
      else throw "No ML model available and rule-based fallback disabled"
  step_with fallback by_rules provider features (some model) =
      model.predict features >>= λ p. ok (all (prediction_of provider features model p ∷ []))

  abbrev pub continue_with : Attempt A → Result (Attempt A) → Result (Attempt A)
  continue_with (early p) rest = ok (early p)
  continue_with (all ps) (throw e) = throw e
  continue_with (all ps) (ok (early q)) = ok (early q)
  continue_with (all ps) (ok (all qs)) = ok (all (ps ++ qs))

  pub candidate_step :
      MlRouter A
      → Surroundings A
      → SandboxSpec A
      → List (TrainingDataPoint A)
      → List (EdgeAgentSnapshot A)
      → ℕ
      → SandboxProvider
      → Result (Attempt A)
  candidate_step router around spec history agents k p =
      step_with (enabled_fallback router.fallback_to_rule_based)
        (rule_based_prediction around.host spec p) p
        (normalize_features around.host
          (extract_features_with_history around.host spec p history agents))
        (get_model_for_prediction router around k)

  -- The loop over the candidates, from the k-th on.
  pub predict_each :
      MlRouter A
      → Surroundings A
      → SandboxSpec A
      → List (TrainingDataPoint A)
      → List (EdgeAgentSnapshot A)
      → ℕ
      → List SandboxProvider
      → Result (Attempt A)
  unfolding candidate_step
  predict_each router around spec history agents k [] = ok (all [])
  predict_each router around spec history agents k (p ∷ ps) =
      let rest = predict_each router around spec history agents (k + 1) ps in
      candidate_step router around spec history agents k p >>= λ attempt. continue_with attempt rest

  -- Reading a property of `undefined`, where there is no prediction, throws.
  abbrev pub best_or_throw : Option (PredictionResult A) → Result (PredictionResult A)
  best_or_throw none = throw "Cannot read properties of undefined (reading 'prediction')"
  best_or_throw (some p) = ok p

  abbrev pub conclude : SandboxConstraints A → Attempt A → Result (PredictionResult A)
  conclude constraints (early p) = ok p
  conclude constraints (all ps) = best_or_throw (select_best_prediction ps constraints)

  -- The body of the `try`.
  pub try_predict :
      MlRouter A
      → Surroundings A
      → SandboxSpec A
      → SandboxConstraints A
      → Result (PredictionResult A)
  unfolding predict_each
  try_predict router around spec constraints = do
    (history, agents) ← around.telemetry
    attempt ← predict_each router around spec history agents 0 (get_candidate_providers constraints)
    conclude constraints attempt

  -- The `catch`. `ruleBasedPrediction` awaits only `extractFeatures`, which awaits nothing and reads a
  -- specification that has its code, so neither rejects.
  abbrev pub or_rules :
      Bool → PredictionResult A → Result (PredictionResult A) → Result (PredictionResult A)
  or_rules fallback by_rules (ok p) = ok p
  or_rules fallback by_rules (throw e) = if fallback then ok by_rules else throw e

  unfoldable pub predict :
      MlRouter A
      → Surroundings A
      → SandboxSpec A
      → SandboxConstraints A
      → Result (PredictionResult A)
  unfolding try_predict
  predict router around spec constraints =
      or_rules (enabled_fallback router.fallback_to_rule_based)
        (rule_based_prediction around.host spec (rule_based_provider_selection spec constraints))
        (try_predict router around spec constraints)
