-- ===== src/MlRouter/Features/History.antt =====
-- Which of the past runs contribute to the features.
use sandstorm_monorepo.Common.{◌≡◌, refl, ◌≢◌, false, List, [], ◌∷◌, includes, arith}
use sandstorm_monorepo.Common.Number.{JsNumber, HasLiterals}
use sandstorm_monorepo.Core.Provider.{SandboxProvider, provider_eq}
use sandstorm_monorepo.Core.Sandbox.{SandboxSpec}
use sandstorm_monorepo.MlRouter.Types.{FeatureVector, TrainingDataPoint}
use sandstorm_monorepo.MlRouter.Selection.{all_providers}
use sandstorm_monorepo.MlRouter.Features.{
  Host, EdgeAgentSnapshot, marks, extract_features, marked_provider, provider_data,
  extract_features_with_history,
}
use sandstorm_monorepo.MlRouter.Features.OneHot.{marked_provider-extract_features}

module _ {A : Type 0} ⦃n : JsNumber A⦄ where
  marked_provider-known :
      (f : FeatureVector A) (p : SandboxProvider)
      → includes p all_providers ≡ false
      → marks (marked_provider f) p ≡ false
  unfolding marked_provider
  marked_provider-known f p h = ground arith

  -- For a provider other than the six known ones, the edge agents among them, no past run counts:
  -- the features are those without any history.
  pub history-unknown :
      (host : Host A) (spec : SandboxSpec A) (p : SandboxProvider)
      (history : List (TrainingDataPoint A)) (agents : List (EdgeAgentSnapshot A))
      → includes p all_providers ≡ false
      → extract_features_with_history host spec p history agents
        ≡ extract_features_with_history host spec p [] agents
  unfolding extract_features_with_history
  history-unknown host spec p history agents h = rw (nothing history)
    where
      nothing : (dps : List (TrainingDataPoint A)) → provider_data p dps ≡ []
      nothing [] = refl
      nothing (dp ∷ dps) = rw (marked_provider-known dp.features p h) (nothing dps)

  module _ (laws : HasLiterals n) where
    marks_only :
        (host : Host A) (spec : SandboxSpec A) (p q : SandboxProvider)
        → p ≢ q
        → marks (marked_provider (extract_features host spec q)) p ≡ false
    marks_only host spec p q h =
        rw ((marked_provider-extract_features laws host spec q).0)
          (ground (arith, provider_eq.beq_iff q p))

    -- If the numbers tell 0 from 1: a past run whose features were extracted for one provider does not change the features of a
    -- run on another.
    pub history-other :
        (host past : Host A) (spec past_spec : SandboxSpec A) (p q : SandboxProvider)
        (dp : TrainingDataPoint A) (history : List (TrainingDataPoint A))
        (agents : List (EdgeAgentSnapshot A))
        → p ≢ q
        → dp.features ≡ extract_features past past_spec q
        → extract_features_with_history host spec p (dp ∷ history) agents
          ≡ extract_features_with_history host spec p history agents
    unfolding extract_features_with_history
    history-other host past spec past_spec p q dp history agents h e = rw skipped
      where
        skipped : provider_data p (dp ∷ history) ≡ provider_data p history
        skipped = rw (e, marks_only past past_spec p q h)
