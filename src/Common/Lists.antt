-- ===== src/Common/Lists.antt =====
-- Arrays as lists: the methods of JavaScript's arrays that the program calls, and their laws.
use Prim.Native.Nat.{ℕ, zero, suc, ◌+◌, ◌-◌, ◌≤◌, min}
use mathlib.Core.Path.{◌≡◌, refl, sym, ap}
use mathlib.Core.Logic.{◌↔◌, inl, inr}
use mathlib.Core.Bool.{Bool, true, false, ◌&&◌, ◌||◌}
use mathlib.Core.List.{List, [], ◌∷◌, ◌++◌, Memᴰ}
use mathlib.Core.List.Memᴰ
use mathlib.Core.Option.{Option, none, some}
use native.Mathlib.Omega.{arith}
use sandstorm_monorepo.Common.Tests.{if◌then◌else◌, Eq, ◌==◌, Bool-cases}

module _ {ℓ} {A : Type ℓ} where
  abbrev pub length : List A → ℕ
  length [] = 0
  length (x ∷ xs) = suc (length xs)

  abbrev pub take : ℕ → List A → List A
  take zero xs = []
  take (suc n) [] = []
  take (suc n) (x ∷ xs) = x ∷ take n xs

  abbrev pub drop : ℕ → List A → List A
  drop zero xs = xs
  drop (suc n) [] = []
  drop (suc n) (x ∷ xs) = drop n xs

  -- `a.slice(-n)` for a positive n: the last n items.
  abbrev pub slice_last : ℕ → List A → List A
  slice_last n xs = drop (length xs - n) xs

  abbrev pub filter : (A → Bool) → List A → List A
  filter p [] = []
  filter p (x ∷ xs) = if p x then x ∷ filter p xs else filter p xs

  abbrev pub find : (A → Bool) → List A → Option A
  find p [] = none
  find p (x ∷ xs) = if p x then some x else find p xs

  -- `a.some(p)` and `a.every(p)`.
  abbrev pub any : (A → Bool) → List A → Bool
  any p [] = false
  any p (x ∷ xs) = p x || any p xs

  abbrev pub all : (A → Bool) → List A → Bool
  all p [] = true
  all p (x ∷ xs) = p x && all p xs

  -- `a[0]`
  abbrev pub head? : List A → Option A
  head? [] = none
  head? (x ∷ xs) = some x

module _ {ℓ} {A : Type ℓ} ⦃e : Eq A⦄ where
  -- `a.includes(x)`
  abbrev pub includes : A → List A → Bool
  includes a [] = false
  includes a (x ∷ xs) = (x == a) || includes a xs

module _ {ℓ κ} {A : Type ℓ} (P : A → Type κ) where
  abbrev pub All : List A → Type κ
  All [] = Unit
  All (x ∷ xs) = P x × All xs

module _ {ℓ} {A : Type ℓ} where
  pub append_nil : (xs : List A) → xs ++ [] ≡ xs
  append_nil [] = refl
  append_nil (x ∷ xs) = rw (append_nil xs) refl

  -- Two filters are one, and the test that always passes filters nothing.
  pub filter-filter :
      (p q : A → Bool) (xs : List A) → filter p (filter q xs) ≡ filter (λ x. q x && p x) xs
  filter-filter p q [] = refl
  filter-filter p q (x ∷ xs) = ground (arith, filter-filter p q xs)

  pub filter-all : (p : A → Bool) (xs : List A) → ((x : A) → p x ≡ true) → filter p xs ≡ xs
  filter-all p [] h = refl
  filter-all p (x ∷ xs) h = rw (h x, filter-all p xs h) refl

  pub length-append : (xs ys : List A) → length (xs ++ ys) ≡ length xs + length ys
  length-append [] ys = omega arith
  length-append (x ∷ xs) ys = omega (arith, length-append xs ys)

  pub length-drop : (n : ℕ) (xs : List A) → length (drop n xs) ≡ length xs - n
  length-drop zero xs = omega arith
  length-drop (suc n) [] = omega arith
  length-drop (suc n) (x ∷ xs) = omega (arith, length-drop n xs)

  pub length-take : (n : ℕ) (xs : List A) → length (take n xs) ≡ min n (length xs)
  length-take zero xs = omega arith
  length-take (suc n) [] = omega arith
  length-take (suc n) (x ∷ xs) = omega (arith, length-take n xs)

  pub take-append-drop : (n : ℕ) (xs : List A) → take n xs ++ drop n xs ≡ xs
  take-append-drop zero xs = refl
  take-append-drop (suc n) [] = refl
  take-append-drop (suc n) (x ∷ xs) = rw (take-append-drop n xs)

  pub length-slice_last : (n : ℕ) (xs : List A) → length (slice_last n xs) ≡ min n (length xs)
  length-slice_last n xs = omega (arith, length-drop (length xs - n) xs)

  pub drop-zero_of_le : (n : ℕ) (xs : List A) → length xs ≤ n → slice_last n xs ≡ xs
  drop-zero_of_le n xs h = let z : length xs - n ≡ 0 = omega arith in rw z

  pub length-filter : (p : A → Bool) (xs : List A) → length (filter p xs) ≤ length xs
  length-filter p [] = omega arith
  length-filter p (x ∷ xs) = ground (arith, length-filter p xs)

  pub filter-append :
      (p : A → Bool) (xs ys : List A) → filter p (xs ++ ys) ≡ filter p xs ++ filter p ys
  filter-append p [] ys = refl
  filter-append p (x ∷ xs) ys = ground (arith, filter-append p xs ys)

  -- What `find` returns is in the list and passes the test.
  pub find_sound :
      (p : A → Bool) (xs : List A) {a : A} → find p xs ≡ some a → Memᴰ a xs × (p a ≡ true)
  find_sound p [] h = cc
  find_sound p (x ∷ xs) {a} h = elim (Bool-cases (p x)) [
    | inl e ↦ let same : a ≡ x = ground arith in (Memᴰ.head same, rw same e)
    | inr e ↦ let (m, t) = find_sound p xs (ground arith) in (Memᴰ.tail m, t)
  ]

  -- `find` returns nothing exactly when nothing passes.
  pub find-none_iff : (p : A → Bool) (xs : List A) → (find p xs ≡ none) ↔ All (λ x. p x ≡ false) xs
  find-none_iff p [] = (λ _. tt, λ _. refl)
  find-none_iff p (x ∷ xs) = ground (arith, find-none_iff p xs)

  pub mem-filter_sound :
      (p : A → Bool) (xs : List A) {a : A} → Memᴰ a (filter p xs) → Memᴰ a xs × (p a ≡ true)
  mem-filter_sound p [] m = elim m [ ]
  mem-filter_sound p (x ∷ xs) {a} m = elim (Bool-cases (p x)) [
    | inl e ↦ elim (Memᴰ.cases_cons (rw e at m)) [
      | inl same ↦ (Memᴰ.head same, rw same e)
      | inr later ↦ let (k, t) = mem-filter_sound p xs later in (Memᴰ.tail k, t)
    ]
    | inr e ↦ let (k, t) = mem-filter_sound p xs (rw e at m) in (Memᴰ.tail k, t)
  ]

  pub mem-filter :
      (p : A → Bool) (xs : List A) {a : A} → Memᴰ a xs → p a ≡ true → Memᴰ a (filter p xs)
  mem-filter p [] m t = elim m [ ]
  mem-filter p (x ∷ xs) m t = elim (Bool-cases (p x)) [
    | inl e ↦ elim (Memᴰ.cases_cons m) [
      | inl same ↦ rw e (Memᴰ.head same)
      | inr later ↦ rw e (Memᴰ.tail (mem-filter p xs later t))
    ]
    | inr e ↦ elim (Memᴰ.cases_cons m) [
      | inl same ↦ cc (ap p same)
      | inr later ↦ rw e (mem-filter p xs later t)
    ]
  ]

module _ {ℓ} {A : Type ℓ} ⦃e : Eq A⦄ where
  pub mem_of_includes : (a : A) (xs : List A) → includes a xs ≡ true → Memᴰ a xs
  mem_of_includes a [] h = cc
  mem_of_includes a (x ∷ xs) h = elim (Bool-cases (x == a)) [
    | inl same ↦ Memᴰ.head (sym ((e.beq_iff x a).0 same))
    | inr other ↦ Memᴰ.tail (mem_of_includes a xs (ground arith))
  ]

  pub includes_of_mem : (a : A) (xs : List A) → Memᴰ a xs → includes a xs ≡ true
  includes_of_mem a [] m = elim m [ ]
  includes_of_mem a (x ∷ xs) m = elim (Memᴰ.cases_cons m) [
    | inl same ↦ rw ((e.beq_iff x a).1 (sym same))
    | inr later ↦ ground (arith, includes_of_mem a xs later)
  ]

  pub includes-filter :
      (p : A → Bool) (a : A) (xs : List A) → includes a (filter p xs) ≡ (p a && includes a xs)
  includes-filter p a [] = ground arith
  includes-filter p a (x ∷ xs) = elim (Bool-cases (x == a)) [
    | inl same ↦
        let eq : x ≡ a = (e.beq_iff x a).0 same in ground (arith, includes-filter p a xs, ap p eq)
    | inr other ↦ ground (arith, includes-filter p a xs)
  ]

module _ {ℓ κ} {A : Type ℓ} (P : A → Type κ) where
  pub All-filter : (p : A → Bool) (xs : List A) → All P xs → All P (filter p xs)
  All-filter p [] h = tt
  All-filter p (x ∷ xs) (h, hs) = elim (Bool-cases (p x)) [
    | inl e ↦ rw e (h, All-filter p xs hs)
    | inr e ↦ rw e (All-filter p xs hs)
  ]

  pub All-mem : (xs : List A) {a : A} → All P xs → Memᴰ a xs → P a
  All-mem [] h m = absurd (Memᴰ.not-nil m)
  All-mem (x ∷ xs) (h, hs) m = elim (Memᴰ.cases_cons m) [
    | inl same ↦ rw same h
    | inr later ↦ All-mem xs hs later
  ]

module _ {ℓ} {A : Type ℓ} where
  pub filter-none : (p : A → Bool) (xs : List A) → All (λ x. p x ≡ false) xs → filter p xs ≡ []
  filter-none p [] h = refl
  filter-none p (x ∷ xs) (h, hs) = rw h (filter-none p xs hs)
