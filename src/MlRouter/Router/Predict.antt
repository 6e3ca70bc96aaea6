-- ===== src/MlRouter/Router/Predict.antt =====
-- When the router answers, and which providers it may answer with.
use mathlib.Core.List.Memᴰ
use sandstorm_monorepo.Common.{
  ℕ, String, ◌+◌, ◌≡◌, refl, sym, ◌∙◌, ◌≢◌, subst, ◌⊎◌, inl, inr, Bool, true, false, Option, none,
  some, List, [], ◌∷◌, ◌++◌, Memᴰ, includes, includes_of_mem, arith, ap,
}
use sandstorm_monorepo.Common.Number.{JsNumber}
use sandstorm_monorepo.Common.Result.{Result, ok, throw, ◌>>=◌, bind-eq-ok}
use sandstorm_monorepo.Core.Provider.{SandboxProvider, provider_eq}
use sandstorm_monorepo.Core.Sandbox.{SandboxSpec, SandboxConstraints}
use sandstorm_monorepo.MlRouter.Types.{PredictionResult, TrainingDataPoint, FeatureVector}
use sandstorm_monorepo.MlRouter.Selection.{
  all_providers, listed, get_candidate_providers, select_best_prediction,
  rule_based_provider_selection,
}
use sandstorm_monorepo.MlRouter.Selection.Candidates.{includes-get_candidate_providers}
use sandstorm_monorepo.MlRouter.Selection.Best.{select_best_prediction-mem}
use sandstorm_monorepo.MlRouter.Features.{
  Host, EdgeAgentSnapshot, normalize_features, extract_features_with_history,
}
use sandstorm_monorepo.MlRouter.Router.{
  LightGbmModel, MlRouter, Surroundings, enabled_fallback, Attempt, early, all,
  rule_based_prediction, get_model_for_prediction, prediction_of, step_with, continue_with,
  candidate_step, predict_each, best_or_throw, conclude, try_predict, or_rules, predict,
}

module _ {A : Type 0} ⦃n : JsNumber A⦄ where
  -- Everything that the loop has predicted is for one of the providers that it went through.
  abbrev From : List SandboxProvider → Attempt A → Type 0
  From ps (early q) = Memᴰ q.provider ps
  From ps (all qs) = (q : PredictionResult A) → Memᴰ q qs → Memᴰ q.provider ps

  provider-rule_based_prediction :
      (host : Host A) (spec : SandboxSpec A) (p : SandboxProvider)
      → (rule_based_prediction host spec p).provider ≡ p
  unfolding rule_based_prediction
  provider-rule_based_prediction host spec p = refl

  step_with-From :
      (fallback : Bool) (by_rules : PredictionResult A) (p : SandboxProvider)
      (ps : List SandboxProvider) (f : FeatureVector A) (model : Option (LightGbmModel A))
      (attempt : Attempt A)
      → by_rules.provider ≡ p
      → step_with fallback by_rules p f model ≡ ok attempt
      → From (p ∷ ps) attempt
  step_with-From true by_rules p ps f none attempt same h =
      let e : early by_rules ≡ attempt = cc in subst (λ a. From (p ∷ ps) a) e (Memᴰ.head same)
  step_with-From false by_rules p ps f none attempt same h = cc
  step_with-From fallback by_rules p ps f (some model) attempt same h =
      let (x, predicted, done) = bind-eq-ok (model.predict f) _ h in
      let e : all (prediction_of p f model x ∷ []) ≡ attempt = cc in
      subst (λ a. From (p ∷ ps) a) e
        λ q m. elim (Memᴰ.cases_cons m) [
          | inl here ↦ Memᴰ.head (ap (λ (r : PredictionResult A). r.provider) here)
          | inr later ↦ absurd (Memᴰ.not-nil later)
        ]

  continue_with-From :
      (p : SandboxProvider) (ps : List SandboxProvider) (now : Attempt A)
      (rest : Result (Attempt A)) (attempt : Attempt A)
      → From (p ∷ ps) now
      → ((later : Attempt A) → rest ≡ ok later → From ps later)
      → continue_with now rest ≡ ok attempt
      → From (p ∷ ps) attempt
  continue_with-From p ps (early q) rest attempt h k e =
      let same : early q ≡ attempt = cc in subst (λ a. From (p ∷ ps) a) same h
  continue_with-From p ps (all qs) (throw e') attempt h k e = cc
  continue_with-From p ps (all qs) (ok (early r)) attempt h k e =
      let same : early r ≡ attempt = cc in
      subst (λ a. From (p ∷ ps) a) same (Memᴰ.tail (k (early r) refl))
  continue_with-From p ps (all qs) (ok (all rs)) attempt h k e =
      let same : all (qs ++ rs) ≡ attempt = cc in
      subst (λ a. From (p ∷ ps) a) same
        λ q m. elim (Memᴰ.append_cases qs m) [
          | inl first ↦ h q first
          | inr later ↦ Memᴰ.tail (k (all rs) refl q later)
        ]

  candidate_step-From :
      (router : MlRouter A) (around : Surroundings A) (spec : SandboxSpec A)
      (history : List (TrainingDataPoint A)) (agents : List (EdgeAgentSnapshot A)) (k : ℕ)
      (p : SandboxProvider) (ps : List SandboxProvider) (attempt : Attempt A)
      → candidate_step router around spec history agents k p ≡ ok attempt
      → From (p ∷ ps) attempt
  unfolding candidate_step
  candidate_step-From router around spec history agents k p ps attempt h =
      step_with-From (enabled_fallback router.fallback_to_rule_based)
        (rule_based_prediction around.host spec p) p ps
        (normalize_features around.host
          (extract_features_with_history around.host spec p history agents))
        (get_model_for_prediction router around k) attempt
        (provider-rule_based_prediction around.host spec p) h

  predict_each-From :
      (router : MlRouter A) (around : Surroundings A) (spec : SandboxSpec A)
      (history : List (TrainingDataPoint A)) (agents : List (EdgeAgentSnapshot A)) (k : ℕ)
      (ps : List SandboxProvider) (attempt : Attempt A)
      → predict_each router around spec history agents k ps ≡ ok attempt
      → From ps attempt
  unfolding predict_each
  predict_each-From router around spec history agents k [] attempt h =
      let same : all [] ≡ attempt = cc in subst (λ a. From [] a) same λ q m. absurd (Memᴰ.not-nil m)
  predict_each-From router around spec history agents k (p ∷ ps) attempt h =
      let rest = predict_each router around spec history agents (k + 1) ps in
      let (now, done, h') =
        bind-eq-ok (candidate_step router around spec history agents k p)
          (λ a. continue_with a rest) h in
      continue_with-From p ps now rest attempt
        (candidate_step-From router around spec history agents k p ps now done)
        (λ later e. predict_each-From router around spec history agents (k + 1) ps later e) h'

  conclude-From :
      (constraints : SandboxConstraints A) (ps : List SandboxProvider) (attempt : Attempt A)
      (q : PredictionResult A)
      → From ps attempt
      → conclude constraints attempt ≡ ok q
      → Memᴰ q.provider ps
  conclude-From constraints ps (early p) q h e =
      let same : p ≡ q = cc in subst (λ (r : PredictionResult A). Memᴰ r.provider ps) same h
  conclude-From constraints ps (all qs) q h e =
      go (select_best_prediction qs constraints) (λ r. select_best_prediction-mem qs constraints r)
        e
    where
      go :
          (best : Option (PredictionResult A))
          → ((r : PredictionResult A) → best ≡ some r → Memᴰ r qs)
          → best_or_throw best ≡ ok q
          → Memᴰ q.provider ps
      go none k l = cc
      go (some p) k l = let same : p ≡ q = cc in h q (subst (λ r. Memᴰ r qs) same (k p refl))

  try_predict-From :
      (router : MlRouter A) (around : Surroundings A) (spec : SandboxSpec A)
      (constraints : SandboxConstraints A) (q : PredictionResult A)
      → try_predict router around spec constraints ≡ ok q
      → Memᴰ q.provider (get_candidate_providers constraints)
  unfolding try_predict
  try_predict-From router around spec constraints q h =
      let (data_of, fetched, h') = bind-eq-ok around.telemetry _ h in
      let (attempt, done, h'') =
        bind-eq-ok
          (predict_each router around spec data_of.0 data_of.1 0
            (get_candidate_providers constraints))
          (conclude constraints) h' in
      conclude-From constraints _ attempt q
        (predict_each-From router around spec data_of.0 data_of.1 0 _ attempt done) h''

  -- The provider is one of the six and not excluded.
  abbrev pub Respects : SandboxConstraints A → SandboxProvider → Type 0
  Respects constraints p =
      (includes p all_providers ≡ true)
      × (includes p (listed constraints.exclude_providers) ≡ false)

  or_rules-throw :
      (fallback : Bool) (by_rules q : PredictionResult A) (s : String)
      → or_rules fallback by_rules (throw s) ≡ ok q
      → (fallback ≡ true) × (by_rules ≡ q)
  or_rules-throw true by_rules q s h = (refl, cc)
  or_rules-throw false by_rules q s h = cc

  -- A prediction that the router returns is for one of the six providers and none that is
  -- excluded; or the fallback is on, the attempt to predict has thrown, and it is the router's own
  -- rules' choice, whatever is excluded.
  pub predict_provider :
      (router : MlRouter A) (around : Surroundings A) (spec : SandboxSpec A)
      (constraints : SandboxConstraints A) (q : PredictionResult A)
      → predict router around spec constraints ≡ ok q
      → Respects constraints q.provider
        ⊎ ((enabled_fallback router.fallback_to_rule_based ≡ true)
            × (q.provider ≡ rule_based_provider_selection spec constraints)
            × ((r : PredictionResult A) → try_predict router around spec constraints ≢ ok r))
  unfolding predict
  predict_provider router around spec constraints q h =
      go (try_predict router around spec constraints) refl h
    where
      choice : SandboxProvider
      choice = rule_based_provider_selection spec constraints

      go :
          (tried : Result (PredictionResult A))
          → try_predict router around spec constraints ≡ tried
          → or_rules
              (enabled_fallback router.fallback_to_rule_based)
              (rule_based_prediction around.host spec choice)
              tried
            ≡ ok q
          → Respects constraints q.provider
            ⊎ ((enabled_fallback router.fallback_to_rule_based ≡ true)
                × (q.provider ≡ choice)
                × ((r : PredictionResult A) → try_predict router around spec constraints ≢ ok r))
      go (ok p) e k =
          let same : p ≡ q = cc in
          let m = try_predict-From router around spec constraints q (e ∙ ap ok same) in
          let c = includes_of_mem q.provider (get_candidate_providers constraints) m in
          let split = includes-get_candidate_providers constraints q.provider in
          inl (ground (arith, c, split), ground (arith, c, split))
      go (throw s) e k =
          let (on, same) = or_rules-throw _ (rule_based_prediction around.host spec choice) q s k in
          inr (
            on,
            sym (ap (λ (r : PredictionResult A). r.provider) same)
                ∙ provider-rule_based_prediction around.host spec choice,
            λ r f. cc,
          )

  -- With the fallback on, the router always answers, whatever the models, the telemetry service
  -- and the constraints are.
  pub predict_total :
      (router : MlRouter A) (around : Surroundings A) (spec : SandboxSpec A)
      (constraints : SandboxConstraints A)
      → enabled_fallback router.fallback_to_rule_based ≡ true
      → (q : PredictionResult A) × (predict router around spec constraints ≡ ok q)
  unfolding predict
  predict_total router around spec constraints on =
      rw on (go (try_predict router around spec constraints))
    where
      go :
          (tried : Result (PredictionResult A))
          → (q : PredictionResult A) × (or_rules true
                (rule_based_prediction around.host spec
                  (rule_based_provider_selection spec constraints))
                tried
              ≡ ok q)
      go (ok p) = (p, refl)
      go (throw s) = (_, refl)

  rule_based_provider_selection-known :
      (spec : SandboxSpec A) (constraints : SandboxConstraints A)
      → includes (rule_based_provider_selection spec constraints) all_providers ≡ true
  unfolding rule_based_provider_selection
  rule_based_provider_selection-known spec constraints = ground arith

  no_candidate-throws :
      (router : MlRouter A) (around : Surroundings A) (spec : SandboxSpec A)
      (constraints : SandboxConstraints A)
      → get_candidate_providers constraints ≡ []
      → (s : String) × (try_predict router around spec constraints ≡ throw s)
  unfolding try_predict predict_each select_best_prediction
  no_candidate-throws router around spec constraints h = rw h (go around.telemetry)
    where
      go :
          (fetched : Result (List (TrainingDataPoint A) × List (EdgeAgentSnapshot A)))
          → (s : String) × ((fetched >>= λ d.
                predict_each router around spec d.0 d.1 0 [] >>= conclude constraints)
              ≡ throw s)
      go (throw s) = (s, refl)
      go (ok d) = ("Cannot read properties of undefined (reading 'prediction')", refl)

  -- Where every one of the six providers is excluded and the fallback is on, the router answers
  -- with its own rules' choice, which is an excluded provider.
  pub predict-all_excluded :
      (router : MlRouter A) (around : Surroundings A) (spec : SandboxSpec A)
      (constraints : SandboxConstraints A)
      → get_candidate_providers constraints ≡ []
      → enabled_fallback router.fallback_to_rule_based ≡ true
      → (predict router around spec constraints
          ≡ ok (
              rule_based_prediction around.host spec
                (rule_based_provider_selection spec constraints)))
        × (includes
              (rule_based_provider_selection spec constraints)
              (listed constraints.exclude_providers)
            ≡ true)
  unfolding predict
  predict-all_excluded router around spec constraints h on =
      let (s, thrown) = no_candidate-throws router around spec constraints h in
      let choice = rule_based_provider_selection spec constraints in
      (
        rw (thrown, on),
        ground (
          arith,
          includes-get_candidate_providers constraints choice,
          rule_based_provider_selection-known spec constraints,
          ap (includes choice) h,
        ),
      )
