-- ===== src/Common/Sorting.antt =====
-- JavaScript's sort of a list, and what stands first after it.
use mathlib.Core.Path.{◌≡◌, refl}
use mathlib.Core.Logic.{inl, inr}
use mathlib.Core.Bool.{Bool, true, false}
use mathlib.Core.List.{List, [], ◌∷◌, Memᴰ}
use sandstorm_monorepo.Common.Tests.{if◌then◌else◌, Bool-cases}
use sandstorm_monorepo.Common.Lists.{All}

-- `list.sort(...)`, by insertion: it is stable.
abbrev pub insert : {B : Type 0} → (B → B → Bool) → B → List B → List B
insert le x [] = x ∷ []
insert le x (y ∷ ys) = if le x y then x ∷ y ∷ ys else y ∷ insert le x ys

abbrev pub sort_by : {B : Type 0} → (B → B → Bool) → List B → List B
sort_by le [] = []
sort_by le (x ∷ xs) = insert le x (sort_by le xs)

module _ {B : Type 0} (le : B → B → Bool) where
  -- The first of the sorted list is in the list and no greater than any of its elements.
  abbrev pub IsFirst : List B → List B → Type 0
  IsFirst xs [] = Unit
  IsFirst xs (y ∷ ys) = Memᴰ y xs × All (λ x. le y x ≡ true) xs

  insert-not_nil : (x : B) (xs : List B) → insert le x xs ≡ [] → ⊥
  insert-not_nil x [] e = cc e
  insert-not_nil x (y ∷ ys) e = elim (Bool-cases (le x y)) [
    | inl same ↦ cc (rw same at e)
    | inr other ↦ cc (rw other at e)
  ]

  pub sort_by-not_nil : (xs : List B) → sort_by le xs ≡ [] → xs ≡ []
  sort_by-not_nil [] e = refl
  sort_by-not_nil (x ∷ xs) e = absurd (insert-not_nil x (sort_by le xs) e)

  module _ (refl_le : (x : B) → le x x ≡ true) (total : (x y : B) → le x y ≡ false → le y x ≡ true)
      (trans : (x y z : B) → le x y ≡ true → le y z ≡ true → le x z ≡ true) where
    All-trans :
        (x y : B) (xs : List B)
        → le x y ≡ true
        → All (λ z. le y z ≡ true) xs
        → All (λ z. le x z ≡ true) xs
    All-trans x y [] e h = tt
    All-trans x y (z ∷ xs) e (h, hs) = (trans x y z e h, All-trans x y xs e hs)

    insert-IsFirst :
        (x : B) (xs sorted : List B)
        → (sorted ≡ [] → xs ≡ [])
        → IsFirst xs sorted
        → IsFirst (x ∷ xs) (insert le x sorted)
    insert-IsFirst x xs [] empty h = rw (empty refl) (Memᴰ.head refl, (refl_le x, tt))
    insert-IsFirst x xs (y ∷ ys) empty (m, h) = elim (Bool-cases (le x y)) [
      | inl e ↦ rw e (Memᴰ.head refl, (refl_le x, All-trans x y xs e h))
      | inr e ↦ rw e (Memᴰ.tail m, (total x y e, h))
    ]

    pub sort_by-IsFirst : (xs : List B) → IsFirst xs (sort_by le xs)
    sort_by-IsFirst [] = tt
    sort_by-IsFirst (x ∷ xs) =
        insert-IsFirst x xs (sort_by le xs) (sort_by-not_nil xs) (sort_by-IsFirst xs)
