-- ===== src/MlRouter/Selection.antt =====
-- packages/ml-router/src/ml-router.ts: the candidates of a prediction, the best of the
-- predictions, and the router's own rules.
pub mod Candidates
pub mod Best
use sandstorm_monorepo.Common.{
  Bool, true, false, ◌&&◌, not, Option, none, some, List, [], ◌∷◌, ◌++◌, filter, includes, map,
  if◌then◌else◌,
}
use sandstorm_monorepo.Common.Number.{JsNumber, ◌⊕◌, ◌⊖◌, ◌⊗◌, ◌⊘◌, ◌≺◌, ◌≻◌, num, dec, or_number}
use sandstorm_monorepo.Core.Provider.{
  SandboxProvider, e2b, modal, daytona, morph, kubernetes, custom, provider_eq,
}
use sandstorm_monorepo.Core.Sandbox.{SandboxSpec, SandboxConstraints}
use sandstorm_monorepo.MlRouter.Types.{PredictionResult}

abbrev pub all_providers : List SandboxProvider
all_providers = e2b ∷ modal ∷ daytona ∷ morph ∷ kubernetes ∷ custom ∷ []

-- `if (list && list.length > 0) …`: an absent list acts as the empty one.
abbrev pub listed : Option (List SandboxProvider) → List SandboxProvider
listed none = []
listed (some ps) = ps

abbrev pub without : List SandboxProvider → List SandboxProvider → List SandboxProvider
without [] candidates = candidates
without (p ∷ ps) candidates = filter (λ q. not (includes q (p ∷ ps))) candidates

abbrev pub to_front : List SandboxProvider → List SandboxProvider → List SandboxProvider
to_front [] candidates = candidates
to_front (p ∷ ps) candidates =
    filter (λ q. includes q candidates) (p ∷ ps)
    ++ filter (λ q. not (includes q (p ∷ ps))) candidates

module _ {A : Type 0} where
  unfoldable pub get_candidate_providers : SandboxConstraints A → List SandboxProvider
  get_candidate_providers constraints =
      to_front (listed constraints.preferred_providers)
        (without (listed constraints.exclude_providers) all_providers)

abbrev pub is_set : Option Bool → Bool
is_set none = false
is_set (some b) = b

-- `list.sort((a, b) => a.score - b.score)[0]`: the sort is stable, so its first item is the first
-- of those with the least score.
module _ {ℓ} {B : Type ℓ} where
  abbrev pub least_of : (B → B → Bool) → B → List B → B
  least_of before best [] = best
  least_of before best (x ∷ xs) = least_of before (if before x best then x else best) xs

module _ {A : Type 0} ⦃n : JsNumber A⦄ where
  -- `limit && value > limit`
  abbrev pub over : Option A → A → Bool
  over none value = false
  over (some limit) value = n.truthy limit && (value ≻ limit)

  unfoldable pub is_valid : SandboxConstraints A → PredictionResult A → Bool
  is_valid constraints p =
      if over constraints.max_cost p.predicted_cost
      then false
      else if over constraints.max_latency p.predicted_latency
      then false
      else true

  unfoldable pub score : PredictionResult A → A
  score p =
      let cost_score = p.predicted_cost in
      let latency_score = p.predicted_latency ⊘ num 1000 in
      (dec 6 1 ⊗ cost_score ⊕ dec 4 1 ⊗ latency_score) ⊗ (num 1 ⊖ p.confidence ⊗ dec 1 1)

  abbrev pub or_all :
      List (PredictionResult A) → List (PredictionResult A) → List (PredictionResult A)
  or_all [] predictions = predictions
  or_all (p ∷ ps) predictions = p ∷ ps

  abbrev pub first_by_score : List (PredictionResult A) → Option (PredictionResult A)
  first_by_score [] = none
  first_by_score (p ∷ ps) = some (least_of (λ a b. score a ≺ score b) p ps)

  -- With no prediction at all the code reads a property of `undefined`, which throws: `none`.
  unfoldable pub select_best_prediction :
      List (PredictionResult A) → SandboxConstraints A → Option (PredictionResult A)
  unfolding is_valid score
  select_best_prediction predictions constraints =
      first_by_score (or_all (filter (is_valid constraints) predictions) predictions)

  -- `value && value > limit`
  abbrev pub exceeds : Option A → A → Bool
  exceeds none limit = false
  exceeds (some v) limit = n.truthy v && (v ≻ limit)

  unfoldable pub rule_based_provider_selection :
      SandboxSpec A → SandboxConstraints A → SandboxProvider
  rule_based_provider_selection spec constraints =
      if is_set spec.gpu
      then modal
      else if is_set spec.stateful
      then kubernetes
      else if exceeds spec.timeout (num 300000)
      then daytona
      else if exceeds spec.memory (num 8192)
      then modal
      else e2b
