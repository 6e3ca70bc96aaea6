-- ===== src/MlRouter/Selection/Candidates.antt =====
-- Preferences reorder the candidates and never exclude one.
use sandstorm_monorepo.Common.{
  ◌≡◌, refl, ◌∙◌, ◌&&◌, ◌||◌, not, List, [], ◌∷◌, ◌++◌, filter, includes, includes-filter, arith,
}
use sandstorm_monorepo.Core.Provider.{SandboxProvider, provider_eq}
use sandstorm_monorepo.Core.Sandbox.{SandboxConstraints}
use sandstorm_monorepo.MlRouter.Selection.{
  all_providers, listed, without, to_front, get_candidate_providers,
}

includes-append :
    (p : SandboxProvider) (xs ys : List SandboxProvider)
    → includes p (xs ++ ys) ≡ (includes p xs || includes p ys)
includes-append p [] ys = refl
includes-append p (x ∷ xs) ys = ground (arith, includes-append p xs ys)

includes-without :
    (ps cs : List SandboxProvider) (p : SandboxProvider)
    → includes p (without ps cs) ≡ (not (includes p ps) && includes p cs)
includes-without [] cs p = refl
includes-without (q ∷ qs) cs p = includes-filter (λ r. not (includes r (q ∷ qs))) p cs

includes-to_front :
    (ps cs : List SandboxProvider) (p : SandboxProvider)
    → includes p (to_front ps cs) ≡ includes p cs
includes-to_front [] cs p = refl
includes-to_front (q ∷ qs) cs p = ground (
  arith,
  includes-append p (filter (λ r. includes r cs) (q ∷ qs))
      (filter (λ r. not (includes r (q ∷ qs))) cs),
  includes-filter (λ r. includes r cs) p (q ∷ qs),
  includes-filter (λ r. not (includes r (q ∷ qs))) p cs,
)

module _ {A : Type 0} where
  -- A provider is a candidate exactly when it is one of the six known ones and not excluded: the
  -- preferences make no difference to that.
  pub includes-get_candidate_providers :
      (constraints : SandboxConstraints A) (p : SandboxProvider)
      → includes p (get_candidate_providers constraints)
        ≡ (not (includes p (listed constraints.exclude_providers)) && includes p all_providers)
  unfolding get_candidate_providers
  includes-get_candidate_providers constraints p =
      includes-to_front (listed constraints.preferred_providers) _ p
      ∙ includes-without (listed constraints.exclude_providers) all_providers p
