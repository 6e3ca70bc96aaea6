-- ===== src/Common/Dict.antt =====
-- JavaScript's `Map` as an association list in the order of insertion.
use mathlib.Core.Path.{◌≡◌, refl, ap}
use mathlib.Core.Logic.{inl, inr}
use mathlib.Core.Bool.{Bool, true, false}
use mathlib.Core.Option.{Option, none, some}
use mathlib.Core.List.{List, [], ◌∷◌}
use native.Mathlib.Omega.{arith}
use sandstorm_monorepo.Common.Tests.{if◌then◌else◌, Eq, ◌==◌, Bool-cases}

module _ {ℓ} {K : Type ℓ} {V : Type ℓ} ⦃e : Eq K⦄ where
  -- `m.get(k)`
  abbrev pub get : K → List (K × V) → Option V
  get k [] = none
  get k ((j, v) ∷ m) = if j == k then some v else get k m

  -- `m.has(k)`
  abbrev pub has : K → List (K × V) → Bool
  has k m = elim (get k m) [ none ↦ false | some _ ↦ true ]

  -- `m.set(k, v)` keeps the place of a key that is there.
  abbrev pub set : K → V → List (K × V) → List (K × V)
  set k v [] = (k, v) ∷ []
  set k v ((j, w) ∷ m) = if j == k then (j, v) ∷ m else (j, w) ∷ set k v m

  -- `m.delete(k)`
  abbrev pub delete : K → List (K × V) → List (K × V)
  delete k [] = []
  delete k ((j, w) ∷ m) = if j == k then delete k m else (j, w) ∷ delete k m

  pub get-set :
      (k j : K) (v : V) (m : List (K × V))
      → get j (set k v m) ≡ (if k == j then some v else get j m)
  get-set k j v [] = refl
  get-set k j v ((i, w) ∷ m) =
      ground (arith, e.beq_iff i k, e.beq_iff i j, e.beq_iff k j, get-set k j v m)

  pub get-delete :
      (k j : K) (m : List (K × V)) → get j (delete k m) ≡ (if k == j then none else get j m)
  get-delete k j [] = ground arith
  get-delete k j ((i, w) ∷ m) =
      ground (arith, e.beq_iff i k, e.beq_iff i j, e.beq_iff k j, get-delete k j m)

  pub delete-set : (k : K) (v : V) (m : List (K × V)) → get k m ≡ none → delete k (set k v m) ≡ m
  delete-set k v [] h = ground (arith, (e.beq_iff k k).1 refl)
  delete-set k v ((i, w) ∷ m) h = elim (Bool-cases (i == k)) [
    | inl same ↦ absurd (ground (arith, same, h))
    | inr other ↦
        rw (other, other) (ap (λ x. (i, w) ∷ x) (delete-set k v m (ground (arith, other, h))))
  ]

  pub set-set : (k : K) (v w : V) (m : List (K × V)) → set k v (set k w m) ≡ set k v m
  set-set k v w [] = ground (arith, (e.beq_iff k k).1 refl)
  set-set k v w ((i, x) ∷ m) = ground (arith, set-set k v w m)

  pub set-get : (k : K) (v : V) (m : List (K × V)) → get k m ≡ some v → set k v m ≡ m
  set-get k v [] h = cc
  set-get k v ((i, w) ∷ m) h = ground (arith, set-get k v m)

-- `Array.from(m.values())`
abbrev pub values {ℓ} : {K : Type ℓ} {V : Type ℓ} → List (K × V) → List V
values [] = []
values ((k, v) ∷ m) = v ∷ values m

abbrev pub keys {ℓ} : {K : Type ℓ} {V : Type ℓ} → List (K × V) → List K
keys [] = []
keys ((k, v) ∷ m) = k ∷ keys m
