-- ===== src/Arbitrage/Tests.antt =====
-- The arbitrage engine at concrete inputs: fixed-point numbers with six decimals.
use sandstorm_monorepo.Common.{
  ℕ, String, ◌≡◌, refl, true, false, none, some, List, [], ◌∷◌, includes, Memᴰ,
}
use sandstorm_monorepo.Common.Number.{micro}
use sandstorm_monorepo.Common.Result.{Result, ok, throw}
use sandstorm_monorepo.Core.Provider.{e2b, modal, daytona, kubernetes, provider_eq}
use sandstorm_monorepo.Core.Sandbox.{SandboxSpec, SandboxConstraints, plain_spec, no_constraints}
use sandstorm_monorepo.MlRouter.Types.{IMlRouter}
use sandstorm_monorepo.Arbitrage.Rules.{
  all_candidates, excluded_by, allowed_candidates, first_listed, try_rule, choose_by_rules,
  candidates_for, apply_preference, estimate_rule_based, select_rule_based_provider,
}
use sandstorm_monorepo.Arbitrage.Rules.Constraints.{
  select_rule_based_provider-allowed, select_rule_based_provider-all_excluded,
}
use sandstorm_monorepo.Arbitrage.Engine.{
  ml, rule_based, ISandboxProvider, ArbitrageEngineOptions, ArbitrageEngine, start_router, by_rules,
  set_confidence_threshold, set_routing_strategy, new_engine, estimate_optimal_provider,
  select_provider,
}
use sandstorm_monorepo.Arbitrage.Engine.Select.{
  Answers, Chosen, estimate, select_provider_sound, select_provider_total,
}
use sandstorm_monorepo.Arbitrage.Engine.Lifecycle.{
  created, next, chooses, HasRouter, Reach-HasRouter,
}

engine_code : Unit {0}
unfolding select_rule_based_provider choose_by_rules try_rule first_listed candidates_for
    apply_preference allowed_candidates estimate_rule_based by_rules estimate_optimal_provider
    start_router new_engine select_provider set_confidence_threshold set_routing_strategy
engine_code = tt

abbrev gpu_spec : SandboxSpec ℕ
gpu_spec = record (plain_spec ℕ "print(1)") { gpu = some true }

abbrev no_modal : SandboxConstraints ℕ
no_modal = record (no_constraints ℕ) {
  exclude_providers = some (modal ∷ []);
  preferred_providers = some (modal ∷ daytona ∷ []);
}

abbrev nobody : SandboxConstraints ℕ
nobody = record (no_constraints ℕ) { exclude_providers = some all_candidates }

gpu_on_modal : select_rule_based_provider gpu_spec (no_constraints ℕ) ≡ modal
unfolding engine_code
gpu_on_modal = refl

select_rule_based_provider-allowed_example :
    (includes (select_rule_based_provider gpu_spec no_modal) all_candidates ≡ true)
    × (excluded_by (some (modal ∷ [])) (select_rule_based_provider gpu_spec no_modal) ≡ false)
unfolding allowed_candidates
select_rule_based_provider-allowed_example =
    select_rule_based_provider-allowed gpu_spec no_modal kubernetes refl

select_rule_based_provider-all_excluded_example :
    (select_rule_based_provider gpu_spec nobody ≡ e2b)
    × (excluded_by (some all_candidates) e2b ≡ true)
unfolding allowed_candidates
select_rule_based_provider-all_excluded_example =
    select_rule_based_provider-all_excluded gpu_spec nobody refl

-- An engine without a router, and three providers, of which `modal` is down.
abbrev no_options : ArbitrageEngineOptions ℕ
no_options = record {
  ml_router_url = none;
  telemetry_url = none;
  model_store_path = none;
  default_strategy = none;
  confidence_threshold = none;
}

abbrev no_router : String → String → Result (IMlRouter ℕ)
no_router path url = throw "no router"

abbrev plain_engine : ArbitrageEngine ℕ
plain_engine = record {
  ml_router = none;
  strategy = rule_based;
  confidence_threshold = 700000;
  providers = [];
  options = no_options;
}

new_engine-no_options : new_engine no_router no_options ≡ plain_engine
unfolding engine_code
new_engine-no_options = refl

abbrev e2b_up : ISandboxProvider
e2b_up = record { name = e2b; handle = 1; is_available = ok true }

abbrev modal_down : ISandboxProvider
modal_down = record { name = modal; handle = 2; is_available = ok false }

abbrev given : List ISandboxProvider
given = modal_down ∷ e2b_up ∷ []

falls_back : (select_provider plain_engine gpu_spec (no_constraints ℕ) given).1 ≡ ok e2b_up
unfolding engine_code
falls_back = refl

modal_estimated : estimate plain_engine gpu_spec (no_constraints ℕ) given ≡ modal
unfolding engine_code
modal_estimated = refl

select_provider_sound_example :
    Memᴰ e2b_up given
    × Answers e2b_up true
    × Chosen (estimate plain_engine gpu_spec (no_constraints ℕ) given) given e2b_up
select_provider_sound_example =
    select_provider_sound plain_engine gpu_spec (no_constraints ℕ) given e2b_up falls_back

select_provider_total_example :
    (r : ISandboxProvider) × ((select_provider plain_engine gpu_spec (no_constraints ℕ) given).1
      ≡ ok r)
unfolding engine_code
select_provider_total_example =
    select_provider_total plain_engine gpu_spec (no_constraints ℕ) given modal_down e2b_up
      ((false, refl), ((true, refl), tt)) refl (Memᴰ.tail (Memᴰ.head refl)) refl refl

abbrev asked_for_ml : ArbitrageEngine ℕ
asked_for_ml = set_routing_strategy no_router ml (new_engine no_router no_options)

Reach-HasRouter_example : HasRouter asked_for_ml
Reach-HasRouter_example =
    Reach-HasRouter no_router no_options
      (next created (chooses ml (new_engine no_router no_options)))

abbrev half : ℕ
half = 500000
