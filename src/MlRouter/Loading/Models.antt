-- ===== src/MlRouter/Loading/Models.antt =====
-- The models that the router holds.
use sandstorm_monorepo.Common.{
  ℕ, String, ◌≡◌, refl, ◌∙◌, ◌⊎◌, inl, inr, Bool, true, false, Option, some, List, arith, ◌==◌,
  Bool-cases, Option-cases, string_eq, beq_refl, subst, if◌then◌else◌, ◌&&◌,
}
use sandstorm_monorepo.Common.Dict.{get, has, set, get-set}
use sandstorm_monorepo.Common.Result.{Result, ok, throw}
use sandstorm_monorepo.Common.Number.{JsNumber, ◌≺◌}
use sandstorm_monorepo.MlRouter.Types.{AbTestConfig}
use sandstorm_monorepo.MlRouter.Router.{
  LightGbmModel, MlRouter, Surroundings, get_model_for_prediction, model_for, drawn_version,
  over_by,
}
use sandstorm_monorepo.MlRouter.Loading.{
  StoreAnswers, Method, install, cache_model, set_active_model, preload, then_do, configure_ab_test,
}

module _ {A : Type 0} where
  abbrev pub Cached : List (String × LightGbmModel A) → String → Type 0
  Cached cache v = (m : LightGbmModel A) × (get v cache ≡ some m)

  -- A model is cached under its own version, and both versions of an A/B test are cached.
  pub record IsValid (router : MlRouter A) : Type 0 where
    pub versions :
        (v : String) (m : LightGbmModel A) → get v router.model_cache ≡ some m → m.version ≡ v
    pub control :
        (c : AbTestConfig A)
        → router.ab_test_config ≡ some c
        → Cached router.model_cache c.control_model_version
    pub treatment :
        (c : AbTestConfig A)
        → router.ab_test_config ≡ some c
        → Cached router.model_cache c.treatment_model_version

  Cached-set :
      (cache : List (String × LightGbmModel A)) (v w : String) (m : LightGbmModel A)
      → Cached cache v
      → Cached (set w m cache) v
  Cached-set cache v w m (k, e) = elim (Bool-cases (w == v)) [
    | inl same ↦ (m, rw (get-set w v m cache) (rw same))
    | inr other ↦ (k, rw (get-set w v m cache) (rw other e))
  ]

  versions-set :
      (cache : List (String × LightGbmModel A)) (w : String) (m : LightGbmModel A)
      → m.version ≡ w
      → ((v : String) (k : LightGbmModel A) → get v cache ≡ some k → k.version ≡ v)
      → (v : String) (k : LightGbmModel A) → get v (set w m cache) ≡ some k
      → k.version ≡ v
  versions-set cache w m right h v k e = elim (Bool-cases (w == v)) [
    | inl same ↦
        let eq : w ≡ v = (string_eq.beq_iff w v).0 same in
        let found : k ≡ m = ground (arith, get-set w v m cache, e, same) in rw found (right ∙ eq)
    | inr other ↦ h v k (ground (arith, get-set w v m cache, e, other))
  ]

module _ {A : Type 0} (store : StoreAnswers A)
    (loads : (v : String) (m : LightGbmModel A) → store.load v ≡ ok m → m.version ≡ v) where
  -- Storing a model that the store has loaded keeps the invariant, whatever else is active.
  insert-IsValid :
      (router : MlRouter A) (active : Option (LightGbmModel A)) (v : String) (m : LightGbmModel A)
      → store.load v ≡ ok m
      → IsValid router
      → IsValid (record router { active_model = active; model_cache = set v m router.model_cache })
  insert-IsValid router active v m loaded h = record {
    versions = versions-set router.model_cache v m (loads v m loaded) h.versions;
    control = λ c e. Cached-set router.model_cache _ v m (h.control c e);
    treatment = λ c e. Cached-set router.model_cache _ v m (h.treatment c e);
  }

  -- If the store loads each model under the version asked for, activating a version keeps the
  -- router valid, however the store answers.
  pub set_active_model-IsValid :
      (v : String) (router : MlRouter A)
      → IsValid router
      → IsValid (set_active_model store v router).0
  unfolding set_active_model
  set_active_model-IsValid v router h = elim (Bool-cases (store.exists v)) [
    | inr missing ↦ rw missing h
    | inl there ↦ rw there (go (store.load v) refl)
  ]
    where
      go :
          (loaded : Result (LightGbmModel A))
          → store.load v ≡ loaded
          → IsValid (install store v router loaded).0
      go (throw e) k = h
      go (ok m) k = insert-IsValid router (some m) v m k h

  -- What a preload leaves: a valid router, in which every cached version is still cached, with the
  -- same test and active model; and the version asked for, if it did not throw.
  record Preloaded (v : String) (before : MlRouter A) (after : Method A) : Type 0 where
    valid : IsValid after.0
    kept : (w : String) → Cached before.model_cache w → Cached after.0.model_cache w
    same_test : after.0.ab_test_config ≡ before.ab_test_config
    there : after.1 ≡ ok tt → Cached after.0.model_cache v

  cache_model-Preloaded :
      (v : String) (router : MlRouter A) (loaded : Result (LightGbmModel A))
      → store.load v ≡ loaded
      → IsValid router
      → Preloaded v router (cache_model store v router loaded)
  cache_model-Preloaded v router (throw e) k h = record {
    valid = h;
    kept = λ w c. c;
    same_test = refl;
    there = λ e'. cc;
  }
  cache_model-Preloaded v router (ok m) k h = record {
    valid = insert-IsValid router router.active_model v m k h;
    kept = λ w c. Cached-set router.model_cache w v m c;
    same_test = refl;
    there = λ _. (m, rw (get-set v v m router.model_cache) (rw (beq_refl v)));
  }

  has-Cached :
      (v : String) (cache : List (String × LightGbmModel A)) → has v cache ≡ true → Cached cache v
  has-Cached v cache h = elim (Option-cases (get v cache)) [
    | inl e ↦ absurd (ground (arith, e, h))
    | inr (m, e) ↦ (m, e)
  ]

  preload-Preloaded :
      (v : String) (router : MlRouter A)
      → IsValid router
      → Preloaded v router (preload store v router)
  unfolding preload
  preload-Preloaded v router h = go (has v router.model_cache) refl
    where
      go :
          (b : Bool)
          → has v router.model_cache ≡ b
          → Preloaded v router
              (if b then (router, ok tt) else cache_model store v router (store.load v))
      go true e = record {
        valid = h;
        kept = λ w c. c;
        same_test = refl;
        there = λ _. has-Cached v router.model_cache e;
      }
      go false e = cache_model-Preloaded v router (store.load v) refl h

  then_do-IsValid :
      (m : Method A) (next : MlRouter A → Method A)
      → IsValid m.0
      → (m.1 ≡ ok tt → IsValid (next m.0).0)
      → IsValid (then_do m next).0
  then_do-IsValid (router, ok _) next h k = k refl
  then_do-IsValid (router, throw e) next h k = h

  -- If the store loads each model under the version asked for, configuring an A/B test keeps the
  -- router valid, whether it succeeds or throws half-way: every cached model stands under its own
  -- version, and both versions of the configured test are cached.
  pub configure_ab_test-IsValid :
      (config : AbTestConfig A) (router : MlRouter A)
      → IsValid router
      → IsValid (configure_ab_test store config router).0
  unfolding configure_ab_test
  configure_ab_test-IsValid config router h =
      go (store.exists config.control_model_version && store.exists config.treatment_model_version)
    where
      start : MlRouter A → Method A
      start s = (record s { ab_test_config = some config }, ok tt)

      second : MlRouter A → Method A
      second r = then_do (preload store config.treatment_model_version r) start

      first : Method A
      first = preload store config.control_model_version router

      one : Preloaded config.control_model_version router first
      one = preload-Preloaded config.control_model_version router h

      final : Method A
      final = preload store config.treatment_model_version first.0

      two : Preloaded config.treatment_model_version first.0 final
      two = preload-Preloaded config.treatment_model_version first.0 one.valid

      configured : first.1 ≡ ok tt → final.1 ≡ ok tt → IsValid (start final.0).0
      configured e f = record {
        versions = two.valid.versions;
        control = λ c same.
            let eq : config ≡ c = cc in
            subst (λ (x : AbTestConfig A). Cached final.0.model_cache x.control_model_version) eq
              (two.kept _ (one.there e));
        treatment = λ c same.
            let eq : config ≡ c = cc in
            subst (λ (x : AbTestConfig A). Cached final.0.model_cache x.treatment_model_version) eq
              (two.there f);
      }

      go :
          (b : Bool)
          → IsValid
              (if b
                then then_do first second
                else (router, throw "One or both model versions for A/B test do not exist")).0
      go false = h
      go true =
          then_do-IsValid first second one.valid
            λ e. then_do-IsValid final start two.valid (configured e)

module _ {A : Type 0} ⦃n : JsNumber A⦄ where
  -- In a valid router, while an A/B test is on and not over, every draw gives a model, and it is of
  -- one of the two versions under test.
  pub get_model_for_prediction-under_test :
      (router : MlRouter A) (around : Surroundings A) (k : ℕ) (config : AbTestConfig A)
      → IsValid router
      → router.ab_test_config ≡ some config
      → config.enabled ≡ true
      → over_by around.time_of around.now config.end_time ≡ false
      → (m : LightGbmModel A) × (get_model_for_prediction router around k ≡ some m)
        × ((m.version ≡ config.treatment_model_version)
            ⊎ (m.version ≡ config.control_model_version))
  unfolding get_model_for_prediction model_for drawn_version
  get_model_for_prediction-under_test router around k config h e on running =
      elim (Bool-cases (around.random k ≺ config.traffic_split)) [
        | inl low ↦
            let (m, found) = h.treatment config e in
            (m, ground (arith, low, found), inl (h.versions _ m found))
        | inr high ↦
            let (m, found) = h.control config e in
            (m, ground (arith, high, found), inr (h.versions _ m found))
      ]
