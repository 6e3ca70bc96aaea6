-- ===== src/MlRouter/Selection/Best.antt =====
-- The prediction that the router chooses.
use mathlib.Core.List.Memᴰ
use sandstorm_monorepo.Common.{
  ◌≡◌, refl, inl, inr, Bool, true, false, none, some, List, [], ◌∷◌, filter, Memᴰ, All, mem-filter,
  mem-filter_sound, filter-none, Bool-cases,
}
use sandstorm_monorepo.Common.Number.{JsNumber, IsOrdered, ◌≺◌}
use sandstorm_monorepo.Core.Sandbox.{SandboxConstraints}
use sandstorm_monorepo.MlRouter.Types.{PredictionResult}
use sandstorm_monorepo.MlRouter.Selection.{
  least_of, is_valid, score, or_all, first_by_score, select_best_prediction,
}

mem_skip {ℓ} : {B : Type ℓ} {a b x : B} {xs : List B} → Memᴰ a (b ∷ xs) → Memᴰ a (b ∷ x ∷ xs)
mem_skip m = elim (Memᴰ.cases_cons m) [
  | inl same ↦ Memᴰ.head same
  | inr later ↦ Memᴰ.tail (Memᴰ.tail later)
]

-- The item that `least_of` keeps is one of those that it saw.
least_of-mem {ℓ} :
    {B : Type ℓ} (before : B → B → Bool) (b : B) (xs : List B)
    → Memᴰ (least_of before b xs) (b ∷ xs)
least_of-mem before b [] = Memᴰ.head refl
least_of-mem before b (x ∷ xs) = elim (Bool-cases (before x b)) [
  | inl e ↦ rw e (Memᴰ.tail (least_of-mem before x xs))
  | inr e ↦ rw e (mem_skip (least_of-mem before b xs))
]

module _ {A B : Type 0} ⦃n : JsNumber A⦄ (ordered : IsOrdered n) (key : B → A) where
  abbrev by_key : B → B → Bool
  by_key a b = key a ≺ key b

  -- No item has a smaller key than the one that `least_of` keeps.
  least_of-least :
      (b : B) (xs : List B) (q : B) → Memᴰ q (b ∷ xs) → (key q ≺ key (least_of by_key b xs)) ≡ false
  least_of-least b [] q m = elim (Memᴰ.cases_cons m) [
    | inl same ↦ rw same (ordered.lt_irrefl (key b))
    | inr later ↦ absurd (Memᴰ.not-nil later)
  ]
  least_of-least b (x ∷ xs) q m = elim (Bool-cases (by_key x b)) [
    | inl e ↦ rw e (elim (Memᴰ.cases_cons m) [
      | inl same ↦ rw same (
          ordered.le_trans _ (key x) (key b) (least_of-least x xs x (Memᴰ.head refl))
            (ordered.lt_asymm (key x) (key b) e))
      | inr later ↦ least_of-least x xs q later
    ])
    | inr e ↦ rw e (elim (Memᴰ.cases_cons m) [
      | inl same ↦ least_of-least b xs q (Memᴰ.head same)
      | inr later ↦ elim (Memᴰ.cases_cons later) [
        | inl same ↦
            rw same (ordered.le_trans _ (key b) (key x) (least_of-least b xs b (Memᴰ.head refl)) e)
        | inr there ↦ least_of-least b xs q (Memᴰ.tail there)
      ]
    ])
  ]

module _ {A : Type 0} ⦃n : JsNumber A⦄ where
  -- The predictions that compete: those within the limits, or all where none is.
  abbrev pub competing :
      List (PredictionResult A) → SandboxConstraints A → List (PredictionResult A)
  competing predictions constraints = or_all (filter (is_valid constraints) predictions) predictions

  or_all-mem :
      (kept predictions : List (PredictionResult A)) {p : PredictionResult A}
      → (Memᴰ p kept → Memᴰ p predictions)
      → Memᴰ p (or_all kept predictions)
      → Memᴰ p predictions
  or_all-mem [] predictions h m = m
  or_all-mem (k ∷ ks) predictions h m = h m

  or_all-kept :
      (kept predictions : List (PredictionResult A)) {q : PredictionResult A}
      → Memᴰ q kept
      → or_all kept predictions ≡ kept
  or_all-kept [] predictions m = absurd (Memᴰ.not-nil m)
  or_all-kept (k ∷ ks) predictions m = refl

  first_by_score-best :
      (ordered : IsOrdered n) (ps : List (PredictionResult A)) (p : PredictionResult A)
      → first_by_score ps ≡ some p
      → Memᴰ p ps × ((q : PredictionResult A) → Memᴰ q ps → (score q ≺ score p) ≡ false)
  first_by_score-best ordered [] p h = cc
  first_by_score-best ordered (x ∷ xs) p h =
      let e : p ≡ least_of (λ a b. score a ≺ score b) x xs = cc in
      (Memᴰ.cast e (least_of-mem _ x xs), λ q m. rw e (least_of-least ordered score x xs q m))

  -- If the numbers are ordered, the prediction that the router chooses is one of those given; no
  -- prediction within the limits scores lower; and it is within the limits itself if any is.
  pub select_best_prediction-best :
      (ordered : IsOrdered n) (predictions : List (PredictionResult A))
      (constraints : SandboxConstraints A) (p : PredictionResult A)
      → select_best_prediction predictions constraints ≡ some p
      → Memᴰ p predictions
        × ((q : PredictionResult A)
            → Memᴰ q predictions
            → is_valid constraints q ≡ true
            → (is_valid constraints p ≡ true) × ((score q ≺ score p) ≡ false))
  unfolding select_best_prediction
  select_best_prediction-best ordered predictions constraints p h =
      let kept = filter (is_valid constraints) predictions in
      let (m, best) = first_by_score-best ordered (or_all kept predictions) p h in
      (
        or_all-mem kept predictions (λ k. (mem-filter_sound (is_valid constraints) predictions k).0)
            m,
        λ q there valid.
            let k : Memᴰ q kept = mem-filter (is_valid constraints) predictions there valid in
            let e = or_all-kept kept predictions k in
            ((mem-filter_sound (is_valid constraints) predictions (rw e at m)).1, best q (rw e k)),
      )

  -- If the numbers are ordered and no prediction is within the limits, no prediction scores lower
  -- than the chosen one.
  pub select_best_prediction-relaxed :
      (ordered : IsOrdered n) (predictions : List (PredictionResult A))
      (constraints : SandboxConstraints A) (p : PredictionResult A)
      → All (λ q. is_valid constraints q ≡ false) predictions
      → select_best_prediction predictions constraints ≡ some p
      → (q : PredictionResult A) → Memᴰ q predictions
      → (score q ≺ score p) ≡ false
  unfolding select_best_prediction
  select_best_prediction-relaxed ordered predictions constraints p none_valid h =
      (first_by_score-best ordered predictions p
        (rw (filter-none (is_valid constraints) predictions none_valid) at h)).1

  -- The router finds no prediction only if there is none.
  pub select_best_prediction-none :
      (predictions : List (PredictionResult A)) (constraints : SandboxConstraints A)
      → select_best_prediction predictions constraints ≡ none
      → predictions ≡ []
  unfolding select_best_prediction
  select_best_prediction-none [] constraints h = refl
  select_best_prediction-none (p ∷ ps) constraints h = go (filter (is_valid constraints) (p ∷ ps)) h
    where
      go :
          (kept : List (PredictionResult A))
          → first_by_score (or_all kept (p ∷ ps)) ≡ none
          → p ∷ ps ≡ []
      go [] k = cc
      go (x ∷ xs) k = cc

  -- Without any law of numbers, the chosen prediction is one of those given.
  pub select_best_prediction-mem :
      (predictions : List (PredictionResult A)) (constraints : SandboxConstraints A)
      (p : PredictionResult A)
      → select_best_prediction predictions constraints ≡ some p
      → Memᴰ p predictions
  unfolding select_best_prediction
  select_best_prediction-mem predictions constraints p h =
      or_all-mem (filter (is_valid constraints) predictions) predictions
        (λ k. (mem-filter_sound (is_valid constraints) predictions k).0)
        (go (competing predictions constraints) h)
    where
      go : (ps : List (PredictionResult A)) → first_by_score ps ≡ some p → Memᴰ p ps
      go [] k = cc
      go (x ∷ xs) k =
          let e : p ≡ least_of (λ a b. score a ≺ score b) x xs = cc in
          Memᴰ.cast e (least_of-mem _ x xs)
