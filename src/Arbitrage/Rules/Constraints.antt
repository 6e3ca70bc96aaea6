-- ===== src/Arbitrage/Rules/Constraints.antt =====
-- What the constraints guarantee of the provider that the rules choose.
use sandstorm_monorepo.Common.{
  ◌≡◌, refl, subst, ◌≢◌, Bool, true, false, ◌&&◌, not, Option, none, some, List, [], ◌∷◌, filter,
  includes, arith, includes-filter,
}
use sandstorm_monorepo.Common.Number.{JsNumber}
use sandstorm_monorepo.Core.Provider.{SandboxProvider, e2b, provider_eq}
use sandstorm_monorepo.Core.Sandbox.{SandboxSpec, SandboxConstraints}
use sandstorm_monorepo.Arbitrage.Rules.{
  first_listed, try_rule, all_candidates, excluded_by, allowed_candidates, preferred_or,
  apply_preference, candidates_for, choose_by_rules, select_rule_based_provider,
}
use sandstorm_monorepo.Arbitrage.Rules.Choice.{choose_by_rules-includes}

ne-nil_of_includes :
    (p : SandboxProvider) (xs : List SandboxProvider) → includes p xs ≡ true → xs ≢ []
ne-nil_of_includes p [] h e = cc
ne-nil_of_includes p (x ∷ xs) h e = cc

-- A provider is allowed exactly when it is one of the six and not excluded.
pub includes-allowed_candidates :
    (excluded : Option (List SandboxProvider)) (p : SandboxProvider)
    → includes p (allowed_candidates excluded)
      ≡ (not (excluded_by excluded p) && includes p all_candidates)
unfolding allowed_candidates
includes-allowed_candidates excluded p =
    includes-filter (λ q. not (excluded_by excluded q)) p all_candidates

-- Whatever is preferred, a candidate stays one of those allowed, and one is left if one was.
apply_preference-includes :
    (preferred : Option (List SandboxProvider)) (cs : List SandboxProvider) (p : SandboxProvider)
    → includes p (apply_preference preferred cs) ≡ true
    → includes p cs ≡ true
unfolding apply_preference
apply_preference-includes none cs p h = h
apply_preference-includes (some ps) cs p h =
    go (filter (λ q. includes q cs) ps) (includes-filter (λ q. includes q cs) p ps) h
  where
    go :
        (kept : List SandboxProvider)
        → includes p kept ≡ (includes p cs && includes p ps)
        → includes p (preferred_or kept cs) ≡ true
        → includes p cs ≡ true
    go [] e k = k
    go (q ∷ qs) e k = ground (arith, e, k)

apply_preference-ne-nil :
    (preferred : Option (List SandboxProvider)) (cs : List SandboxProvider)
    → cs ≢ []
    → apply_preference preferred cs ≢ []
unfolding apply_preference
apply_preference-ne-nil none cs h = h
apply_preference-ne-nil (some ps) cs h = go (filter (λ q. includes q cs) ps)
  where
    go : (kept : List SandboxProvider) → preferred_or kept cs ≢ []
    go [] = h
    go (q ∷ qs) = cc

apply_preference-preferred :
    (preferred : Option (List SandboxProvider)) (ps cs : List SandboxProvider)
    (p r : SandboxProvider)
    → preferred ≡ some ps
    → includes p ps ≡ true
    → includes p cs ≡ true
    → includes r (apply_preference preferred cs) ≡ true
    → includes r ps ≡ true
unfolding apply_preference
apply_preference-preferred preferred ps cs p r chosen hp hc hr' =
    let hr : includes r (apply_preference (some ps) cs) ≡ true =
      subst (λ o. includes r (apply_preference o cs) ≡ true) chosen hr' in
    go (filter (λ q. includes q cs) ps) (includes-filter (λ q. includes q cs) p ps)
      (includes-filter (λ q. includes q cs) r ps) hr
  where
    go :
        (kept : List SandboxProvider)
        → includes p kept ≡ (includes p cs && includes p ps)
        → includes r kept ≡ (includes r cs && includes r ps)
        → includes r (preferred_or kept cs) ≡ true
        → includes r ps ≡ true
    go [] e f k = ground (arith, e, hp, hc)
    go (q ∷ qs) e f k = ground (arith, f, k)

filter-nothing : (ps : List SandboxProvider) → filter (λ q. includes q []) ps ≡ []
filter-nothing [] = refl
filter-nothing (p ∷ ps) = filter-nothing ps

apply_preference-nil :
    (preferred : Option (List SandboxProvider)) → apply_preference preferred [] ≡ []
unfolding apply_preference
apply_preference-nil none = refl
apply_preference-nil (some ps) = rw (filter-nothing ps)

first_listed-nil :
    (ps : List SandboxProvider) (rest : SandboxProvider) → first_listed ps [] rest ≡ rest
unfolding first_listed
first_listed-nil [] rest = refl
first_listed-nil (p ∷ ps) rest = first_listed-nil ps rest

try_rule-nil :
    (b : Bool) (ps : List SandboxProvider) (rest : SandboxProvider) → try_rule b ps [] rest ≡ rest
unfolding try_rule
try_rule-nil true ps rest = first_listed-nil ps rest
try_rule-nil false ps rest = refl

module _ {A : Type 0} ⦃n : JsNumber A⦄ where
  choose_by_rules-nil : (spec : SandboxSpec A) → choose_by_rules spec [] ≡ e2b
  unfolding choose_by_rules
  choose_by_rules-nil spec = simp (try_rule-nil, first_listed-nil)

  select-includes_candidates :
      (spec : SandboxSpec A) (constraints : SandboxConstraints A) (p : SandboxProvider)
      → includes p (allowed_candidates constraints.exclude_providers) ≡ true
      → includes (select_rule_based_provider spec constraints) (candidates_for constraints) ≡ true
  unfolding select_rule_based_provider candidates_for
  select-includes_candidates spec constraints p h =
      choose_by_rules-includes spec _
        (apply_preference-ne-nil constraints.preferred_providers _ (ne-nil_of_includes p _ h))

  -- If the exclusions leave at least one of the six known providers, the rules choose one of the
  -- six, and none that is excluded.
  pub select_rule_based_provider-allowed :
      (spec : SandboxSpec A) (constraints : SandboxConstraints A) (p : SandboxProvider)
      → includes p (allowed_candidates constraints.exclude_providers) ≡ true
      → (includes (select_rule_based_provider spec constraints) all_candidates ≡ true)
        × (excluded_by constraints.exclude_providers (select_rule_based_provider spec constraints)
            ≡ false)
  select_rule_based_provider-allowed spec constraints p h =
      let r = select_rule_based_provider spec constraints in
      let kept : includes r (allowed_candidates constraints.exclude_providers) ≡ true =
        apply_preference-includes constraints.preferred_providers _ r
          (unfold candidates_for in select-includes_candidates spec constraints p h) in
      let split = includes-allowed_candidates constraints.exclude_providers r in
      (ground (arith, split, kept), ground (arith, split, kept))

  -- If a preferred provider is allowed, the rules choose a preferred provider.
  pub select_rule_based_provider-preferred :
      (spec : SandboxSpec A) (constraints : SandboxConstraints A) (ps : List SandboxProvider)
      (p : SandboxProvider)
      → constraints.preferred_providers ≡ some ps
      → includes p ps ≡ true
      → includes p (allowed_candidates constraints.exclude_providers) ≡ true
      → includes (select_rule_based_provider spec constraints) ps ≡ true
  unfolding candidates_for
  select_rule_based_provider-preferred spec constraints ps p e hp h =
      apply_preference-preferred constraints.preferred_providers ps _ p _ e hp h
        (select-includes_candidates spec constraints p h)

  -- If the exclusions leave none of the six known providers, the rules choose e2b, which is then
  -- excluded too, whatever is preferred.
  pub select_rule_based_provider-all_excluded :
      (spec : SandboxSpec A) (constraints : SandboxConstraints A)
      → allowed_candidates constraints.exclude_providers ≡ []
      → (select_rule_based_provider spec constraints ≡ e2b)
        × (excluded_by constraints.exclude_providers e2b ≡ true)
  unfolding select_rule_based_provider candidates_for
  select_rule_based_provider-all_excluded spec constraints h = (
    rw h (rw (apply_preference-nil constraints.preferred_providers) (choose_by_rules-nil spec)),
    ground (arith, includes-allowed_candidates constraints.exclude_providers e2b, h),
  )
