-- ===== src/MlRouter/Tests.antt =====
-- The router at concrete inputs: fixed-point numbers with six decimals, and models that answer
-- with constants.
use sandstorm_monorepo.Common.{
  ℕ, String, ◌≡◌, refl, ◌≢◌, ◌⊎◌, inl, inr, true, false, none, some, [], ◌∷◌, includes, Memᴰ, arith,
  string_eq, ◌==◌, Bool-cases, subst,
}
use sandstorm_monorepo.Common.Number.{micro, micro-IsOrdered, micro-HasLiterals, ◌≺◌, num, dec}
use sandstorm_monorepo.Common.Dict.{get}
use sandstorm_monorepo.Common.Result.{ok}
use sandstorm_monorepo.Core.Provider.{SandboxProvider, e2b, modal, morph, custom, provider_eq}
use sandstorm_monorepo.Core.Sandbox.{SandboxSpec, SandboxConstraints, plain_spec, no_constraints}
use sandstorm_monorepo.MlRouter.Types.{
  FeatureVector, PredictionResult, TrainingDataPoint, AbTestConfig,
}
use sandstorm_monorepo.MlRouter.Selection.{
  all_providers, listed, get_candidate_providers, is_valid, score, select_best_prediction,
  rule_based_provider_selection,
}
use sandstorm_monorepo.MlRouter.Selection.Best.{select_best_prediction-best}
use sandstorm_monorepo.MlRouter.Features.{
  Host, extract_features, marked_provider, normalize_features, extract_features_with_history,
}
use sandstorm_monorepo.MlRouter.Features.OneHot.{marked_provider-extract_features}
use sandstorm_monorepo.MlRouter.Router.{
  LightGbmModel, MlRouter, Surroundings, enabled_fallback, rule_based_prediction, try_predict,
  predict, get_model_for_prediction,
}
use sandstorm_monorepo.MlRouter.Loading.{StoreAnswers, preload, configure_ab_test}
use sandstorm_monorepo.MlRouter.Batch.{
  all_results, answer, predict_batch, predict_batch-all_results, predict_batch-negative,
}
use sandstorm_monorepo.Common.Integer.{negsuc}
use sandstorm_monorepo.MlRouter.Router.Predict.{
  Respects, predict_provider, predict_total, predict-all_excluded,
}
use sandstorm_monorepo.MlRouter.Loading.Models.{IsValid, configure_ab_test-IsValid}

abbrev spec : SandboxSpec ℕ
spec = plain_spec ℕ "1"

abbrev host : Host ℕ
host = record { hours = num 9; day = num 1; weekend = false; text_length = λ s. 1; log1p = λ x. x }

abbrev features_of : SandboxProvider → FeatureVector ℕ
features_of p = extract_features host spec p

abbrev prediction : SandboxProvider → ℕ → PredictionResult ℕ
prediction p cost = record {
  provider = p;
  predicted_cost = cost;
  predicted_latency = num 1000;
  confidence = dec 9 1;
  features = features_of p;
  model_version = "v1";
}

abbrev cheap : PredictionResult ℕ
cheap = prediction modal 100

abbrev dear : PredictionResult ℕ
dear = prediction e2b 9000

abbrev limits : SandboxConstraints ℕ
limits = record (no_constraints ℕ) { max_cost = some 200 }

abbrev strict : SandboxConstraints ℕ
strict = record (no_constraints ℕ) { max_cost = some 50 }

best_is_cheap : select_best_prediction (dear ∷ cheap ∷ []) limits ≡ some cheap
unfolding select_best_prediction
best_is_cheap = refl

relaxed_is_cheap : select_best_prediction (dear ∷ cheap ∷ []) strict ≡ some cheap
unfolding select_best_prediction
relaxed_is_cheap = refl

select_best_prediction-best_example :
    Memᴰ cheap (dear ∷ cheap ∷ [])
    × ((q : PredictionResult ℕ)
        → Memᴰ q (dear ∷ cheap ∷ [])
        → is_valid limits q ≡ true
        → (is_valid limits cheap ≡ true) × ((score q ≺ score cheap) ≡ false))
select_best_prediction-best_example =
    select_best_prediction-best micro-IsOrdered (dear ∷ cheap ∷ []) limits cheap best_is_cheap

abbrev no_e2b : SandboxConstraints ℕ
no_e2b = record (no_constraints ℕ) {
  exclude_providers = some (e2b ∷ []);
  preferred_providers = some (custom ∷ e2b ∷ []);
}

marked_provider-extract_features_example :
    (marked_provider (extract_features host spec morph) ≡ some morph)
    × (marked_provider (normalize_features host (extract_features host spec morph)) ≡ some morph)
marked_provider-extract_features_example =
    marked_provider-extract_features micro-HasLiterals host spec morph

abbrev past_run : TrainingDataPoint ℕ
past_run = record {
  features = features_of e2b;
  actual_cost = 5;
  actual_latency = 7;
  success = true;
  timestamp = "";
}

abbrev model : String → LightGbmModel ℕ
model v = record {
  version = v;
  predict = λ f. ok (record { cost = 100; latency = num 1000; confidence = dec 9 1 });
}

abbrev router : MlRouter ℕ
router = record {
  active_model = some (model "v1");
  ab_test_config = none;
  model_cache = ("v1", model "v1") ∷ [];
  fallback_to_rule_based = some true;
  batch_size = none;
}

abbrev around : Surroundings ℕ
around = record {
  host = host;
  now = 0;
  time_of = λ s. 0;
  random = λ k. dec 3 1;
  telemetry = ok ([], []);
}

router_code : Unit {0}
unfolding get_candidate_providers select_best_prediction predict get_model_for_prediction
    extract_features_with_history normalize_features rule_based_provider_selection
    rule_based_prediction
router_code = tt

first_answered : (q : PredictionResult ℕ) × (predict router around spec no_e2b ≡ ok q)
first_answered = predict_total router around spec no_e2b refl

abbrev first_answer : PredictionResult ℕ
first_answer = first_answered.0

predict_provider_example :
    Respects no_e2b first_answer.provider
    ⊎ ((enabled_fallback (some true) ≡ true)
        × (first_answer.provider ≡ rule_based_provider_selection spec no_e2b)
        × ((r : PredictionResult ℕ) → try_predict router around spec no_e2b ≢ ok r))
predict_provider_example = predict_provider router around spec no_e2b first_answer first_answered.1

abbrev nobody : SandboxConstraints ℕ
nobody = record (no_constraints ℕ) { exclude_providers = some all_providers }

predict-all_excluded_example :
    (predict router around spec nobody
      ≡ ok (rule_based_prediction host spec (rule_based_provider_selection spec nobody)))
    × (includes (rule_based_provider_selection spec nobody) (listed (some all_providers)) ≡ true)
unfolding get_candidate_providers
predict-all_excluded_example = predict-all_excluded router around spec nobody refl refl

abbrev store : StoreAnswers ℕ
store = record { exists = λ v. true; load = λ v. ok (model v); set_active_version = λ v. ok tt }

router_versions :
    (v : String) (m : LightGbmModel ℕ) → get v router.model_cache ≡ some m → m.version ≡ v
router_versions v m e = elim (Bool-cases ("v1" == v)) [
  | inl same ↦
      let eq : "v1" ≡ v = (string_eq.beq_iff "v1" v).0 same in
      let found : model "v1" ≡ m = ground (arith, e, same) in
      subst (λ (k : LightGbmModel ℕ). k.version ≡ v) found eq
  | inr other ↦ absurd (ground (arith, e, other))
]

router-IsValid : IsValid router
router-IsValid = record {
  versions = router_versions;
  control = λ c e. absurd (cc);
  treatment = λ c e. absurd (cc);
}

abbrev config : AbTestConfig ℕ
config = record {
  enabled = true;
  control_model_version = "v1";
  treatment_model_version = "v2";
  traffic_split = dec 5 1;
  start_time = "";
  end_time = none;
}

store_loads : (v : String) (m : LightGbmModel ℕ) → store.load v ≡ ok m → m.version ≡ v
store_loads v m e = subst (λ (k : LightGbmModel ℕ). k.version ≡ v) same refl
  where
    same : model v ≡ m
    same = cc

abbrev under_test : MlRouter ℕ
unfolding configure_ab_test preload
under_test = (configure_ab_test store config router).0

configure_ab_test-IsValid_example : IsValid under_test
unfolding configure_ab_test preload
configure_ab_test-IsValid_example =
    configure_ab_test-IsValid store store_loads config router router-IsValid

predict_batch-all_results_example :
    predict_batch 3 router ((around, spec, no_e2b) ∷ (around, spec, nobody) ∷ [])
    ≡ some (all_results (answer router) ((around, spec, no_e2b) ∷ (around, spec, nobody) ∷ []))
predict_batch-all_results_example =
    predict_batch-all_results router ((around, spec, no_e2b) ∷ (around, spec, nobody) ∷ []) 3
      (λ k. cc) (omega arith)

predict_batch-negative_example :
    predict_batch 9 (record router { batch_size = some (negsuc 0) }) ((around, spec, nobody) ∷ [])
    ≢ some (ok [])
predict_batch-negative_example =
    predict_batch-negative (record router { batch_size = some (negsuc 0) }) (around, spec, nobody)
      [] 0 9 [] refl
