-- ===== src/MlRouter/Loading.antt =====
-- packages/ml-router/src/ml-router.ts: the methods of `MLRouter` that load models. The model store's
-- answers are arguments.
pub mod Models
use sandstorm_monorepo.Common.{
  ℕ, suc, ◌+◌, String, Bool, true, false, ◌&&◌, ◌||◌, not, Option, none, some, List, [], ◌∷◌, ◌++◌,
  ltb, ◌==◌, string_eq, if◌then◌else◌,
}
use sandstorm_monorepo.Common.Number.{JsNumber, ◌⊕◌, ◌⊗◌, ◌⊘◌, ◌≺◌, num, dec, or_number}
use sandstorm_monorepo.Common.Dict.{get, has, set}
use sandstorm_monorepo.Common.Result.{Result, ok, throw, ◌>>=◌, ◌>>◌, throw_if}
use sandstorm_monorepo.Core.Provider.{
  SandboxProvider, e2b, modal, daytona, morph, kubernetes, custom,
}
use sandstorm_monorepo.Core.Sandbox.{SandboxSpec, SandboxConstraints}
use sandstorm_monorepo.MlRouter.Types.{
  FeatureVector, PredictionResult, TrainingDataPoint, AbTestConfig, IMlRouter,
}
use sandstorm_monorepo.MlRouter.Selection.{
  get_candidate_providers, select_best_prediction, rule_based_provider_selection,
}
use sandstorm_monorepo.MlRouter.Features.{
  Host, EdgeAgentSnapshot, extract_features, extract_features_with_history, normalize_features,
}
use sandstorm_monorepo.MlRouter.Router.{LightGbmModel, MlRouter}

-- The answers of the model store for one version: whether it exists, and the model that
-- `getModelPath`, `new LightGBMModel` and `load` give.
pub record StoreAnswers (A : Type 0) : Type 0 where
  pub exists : String → Bool
  pub load : String → Result (LightGbmModel A)
  pub set_active_version : String → Result (Unit {0})

-- A method that may throw after it has changed the router.
abbrev pub Method : Type 0 → Type 0
Method A = MlRouter A × Result (Unit {0})

module _ {A : Type 0} where
  abbrev pub then_do : Method A → (MlRouter A → Method A) → Method A
  then_do (router, ok _) next = next router
  then_do (router, throw e) next = (router, throw e)

module _ {A : Type 0} (store : StoreAnswers A) where
  -- The rest of `setActiveModel`, and of one preload, once `load` is settled.
  abbrev pub install : String → MlRouter A → Result (LightGbmModel A) → Method A
  install version router (throw e) = (router, throw e)
  install version router (ok model) = (
    record router { active_model = some model; model_cache = set version model router.model_cache },
    store.set_active_version version,
  )

  abbrev pub cache_model : String → MlRouter A → Result (LightGbmModel A) → Method A
  cache_model version router (throw e) = (router, throw e)
  cache_model version router (ok model) =
      (record router { model_cache = set version model router.model_cache }, ok tt)

  unfoldable pub set_active_model : String → MlRouter A → Method A
  set_active_model version router =
      if store.exists version
      then install version router (store.load version)
      else (router, throw "Model version not found")

  -- `if (!cache.has(v)) { … load …; cache.set(v, model) }`
  unfoldable pub preload : String → MlRouter A → Method A
  preload version router =
      if has version router.model_cache
      then (router, ok tt)
      else cache_model version router (store.load version)

  unfoldable pub configure_ab_test : AbTestConfig A → MlRouter A → Method A
  unfolding preload
  configure_ab_test config router =
      if store.exists config.control_model_version && store.exists config.treatment_model_version
      then then_do (preload config.control_model_version router) (λ r.
        then_do (preload config.treatment_model_version r)
          (λ s. (record s { ab_test_config = some config }, ok tt)))
      else (router, throw "One or both model versions for A/B test do not exist")
