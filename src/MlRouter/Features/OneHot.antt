-- ===== src/MlRouter/Features/OneHot.antt =====
-- The one-hot code of a provider is read back by the history filter and by the model's training.
use sandstorm_monorepo.Common.{◌≡◌, none, some, includes, if◌then◌else◌}
use sandstorm_monorepo.Common.Number.{JsNumber, HasLiterals}
use sandstorm_monorepo.Core.Provider.{SandboxProvider, e2b, provider_eq}
use sandstorm_monorepo.Core.Sandbox.{SandboxSpec}
use sandstorm_monorepo.MlRouter.Selection.{all_providers}
use sandstorm_monorepo.MlRouter.Features.{
  Host, extract_features, marked_provider, normalize_features,
}

module _ {A : Type 0} ⦃n : JsNumber A⦄ (laws : HasLiterals n) where
  -- If the numbers tell 0 from 1: the features of a run on one of the six known providers mark that provider, also after they
  -- are normalised, and the features of a run on any other provider mark none.
  pub marked_provider-extract_features :
      (host : Host A) (spec : SandboxSpec A) (p : SandboxProvider)
      → (marked_provider (extract_features host spec p)
          ≡ (if includes p all_providers then some p else none))
        × (marked_provider (normalize_features host (extract_features host spec p))
            ≡ (if includes p all_providers then some p else none))
  unfolding extract_features marked_provider normalize_features
  marked_provider-extract_features host spec e2b = (rw laws.one_same, rw laws.one_same)
  marked_provider-extract_features host spec _ =
      (simp (laws.one_same, laws.zero_other), simp (laws.one_same, laws.zero_other))
