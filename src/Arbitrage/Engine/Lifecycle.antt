-- ===== src/Arbitrage/Engine/Lifecycle.antt =====
-- The engine's strategy over its life: it asks for predictions only while it has a router.
use sandstorm_monorepo.Common.{
  String, ◌≡◌, refl, ◌↔◌, ◌⊎◌, false, inl, inr, Option, none, some, List, [], ◌∷◌, arith,
}
use sandstorm_monorepo.Common.Number.{JsNumber, ◌≺◌, ◌≻◌, num}
use sandstorm_monorepo.Common.Result.{Result, ok}
use sandstorm_monorepo.MlRouter.Types.{IMlRouter}
use sandstorm_monorepo.Arbitrage.Engine.{
  Strategy, ml, rule_based, hybrid, ArbitrageEngineOptions, ISandboxProvider, ArbitrageEngine,
  adopt, start_if_needed, start_router, new_engine, set_routing_strategy, router_failed, register,
  set_confidence_threshold,
}

module _ {A : Type 0} ⦃n : JsNumber A⦄ (new_router : String → String → Result (IMlRouter A)) where
  -- What can change an engine: its methods, and the router's late failure to initialise.
  pub data Step : ArbitrageEngine A → ArbitrageEngine A → Type 0 where
    chooses :
        (strategy : Strategy) (e : ArbitrageEngine A)
        → Step e (set_routing_strategy new_router strategy e)
    fails : (e : ArbitrageEngine A) → Step e (router_failed e)
    tunes :
        (threshold : A) (e f : ArbitrageEngine A)
        → set_confidence_threshold threshold e ≡ ok f
        → Step e f
    selects :
        (providers : List ISandboxProvider) (e : ArbitrageEngine A) → Step e (register providers e)

  pub data Reach (options : ArbitrageEngineOptions A) : ArbitrageEngine A → Type 0 where
    created : Reach options (new_engine new_router options)
    next : {e f : ArbitrageEngine A} → Reach options e → Step e f → Reach options f

module _ {A : Type 0} where
  -- The strategy needs no router, or the router is there.
  abbrev pub HasRouter : ArbitrageEngine A → Type 0
  HasRouter e = (e.strategy ≡ rule_based) ⊎ ((router : IMlRouter A) × (e.ml_router ≡ some router))

  register-HasRouter :
      (ps : List ISandboxProvider) (e : ArbitrageEngine A) → HasRouter e → HasRouter (register ps e)
  register-HasRouter [] e h = h
  register-HasRouter (p ∷ ps) e h = register-HasRouter ps _ h

module _ {A : Type 0} (new_router : String → String → Result (IMlRouter A)) where
  adopt-HasRouter : (r : Option (IMlRouter A)) (e : ArbitrageEngine A) → HasRouter (adopt r e)
  adopt-HasRouter none e = inl refl
  adopt-HasRouter (some r) e = inr (r, refl)

  start_if_needed-HasRouter :
      (s : Strategy) (r : Option (IMlRouter A)) (e : ArbitrageEngine A)
      → e.strategy ≡ s
      → e.ml_router ≡ r
      → HasRouter (start_if_needed new_router s r e)
  unfolding start_if_needed start_router
  start_if_needed-HasRouter rule_based r e hs hr = inl hs
  start_if_needed-HasRouter ml none e hs hr = adopt-HasRouter _ e
  start_if_needed-HasRouter hybrid none e hs hr = adopt-HasRouter _ e
  start_if_needed-HasRouter ml (some r) e hs hr = inr (r, hr)
  start_if_needed-HasRouter hybrid (some r) e hs hr = inr (r, hr)

module _ {A : Type 0} ⦃n : JsNumber A⦄ where
  set_confidence_threshold-HasRouter :
      (t : A) (e f : ArbitrageEngine A)
      → set_confidence_threshold t e ≡ ok f
      → HasRouter e
      → HasRouter f
  unfolding set_confidence_threshold
  set_confidence_threshold-HasRouter t e f h (inl rules) = inl (ground arith)
  set_confidence_threshold-HasRouter t e f h (inr (r, there)) = inr (r, ground arith)

  -- The setter accepts a threshold exactly when it lies in [0, 1]; then it stores it and changes
  -- nothing else, and otherwise it throws.
  pub set_confidence_threshold_iff :
      (t : A) (e f : ArbitrageEngine A)
      → (set_confidence_threshold t e ≡ ok f) ↔ (
          ((t ≺ num 0) ≡ false)
          × ((t ≻ num 1) ≡ false)
          × (f ≡ record e { confidence_threshold = t }))
  unfolding set_confidence_threshold
  set_confidence_threshold_iff t e f = ground arith

  module _ (new_router : String → String → Result (IMlRouter A)) where
    Step-HasRouter : {e f : ArbitrageEngine A} → Step new_router e f → HasRouter e → HasRouter f
    unfolding set_routing_strategy router_failed
    Step-HasRouter (chooses s e) h = start_if_needed-HasRouter new_router s e.ml_router _ refl refl
    Step-HasRouter (fails e) h = inl refl
    Step-HasRouter (tunes t e f k) h = set_confidence_threshold-HasRouter t e f k h
    Step-HasRouter (selects ps e) h = register-HasRouter ps e h

    -- Whatever the options, and however the constructor of the router, its initialisation and the
    -- engine's methods turn out, an engine whose strategy is `ml` or `hybrid` has a router.
    pub Reach-HasRouter :
        (options : ArbitrageEngineOptions A) {e : ArbitrageEngine A}
        → Reach new_router options e
        → HasRouter e
    unfolding new_engine
    Reach-HasRouter options created = start_if_needed-HasRouter new_router _ none _ refl refl
    Reach-HasRouter options (next r st) = Step-HasRouter st (Reach-HasRouter options r)
