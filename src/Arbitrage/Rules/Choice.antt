-- ===== src/Arbitrage/Rules/Choice.antt =====
-- The rules choose one of the candidates.
use sandstorm_monorepo.Common.{
  ◌≡◌, refl, ◌≢◌, inl, inr, Bool, true, false, List, [], ◌∷◌, includes, Bool-cases, includes_of_mem,
}
use mathlib.Core.List.Memᴰ
use sandstorm_monorepo.Common.Number.{JsNumber}
use sandstorm_monorepo.Core.Provider.{SandboxProvider, provider_eq}
use sandstorm_monorepo.Core.Sandbox.{SandboxSpec}
use sandstorm_monorepo.Arbitrage.Rules.{first_listed, try_rule, choose_by_rules}

first_listed-includes :
    (ps candidates : List SandboxProvider) (rest : SandboxProvider)
    → includes rest candidates ≡ true
    → includes (first_listed ps candidates rest) candidates ≡ true
unfolding first_listed
first_listed-includes [] candidates rest h = h
first_listed-includes (p ∷ ps) candidates rest h = elim (Bool-cases (includes p candidates)) [
  | inl e ↦ rw e e
  | inr e ↦ rw e (first_listed-includes ps candidates rest h)
]

try_rule-includes :
    (b : Bool) (ps candidates : List SandboxProvider) (rest : SandboxProvider)
    → includes rest candidates ≡ true
    → includes (try_rule b ps candidates rest) candidates ≡ true
unfolding try_rule
try_rule-includes true ps candidates rest h = first_listed-includes ps candidates rest h
try_rule-includes false ps candidates rest h = h

module _ {A : Type 0} ⦃n : JsNumber A⦄ where
  -- With at least one candidate the rules choose a candidate.
  pub choose_by_rules-includes :
      (spec : SandboxSpec A) (candidates : List SandboxProvider)
      → candidates ≢ []
      → includes (choose_by_rules spec candidates) candidates ≡ true
  unfolding choose_by_rules
  choose_by_rules-includes spec [] h = absurd (h refl)
  choose_by_rules-includes spec (c ∷ cs) h =
      search (try_rule-includes, first_listed-includes, includes_of_mem c (c ∷ cs) (Memᴰ.head refl))
        depth 9
