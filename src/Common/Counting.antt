-- ===== src/Common/Counting.antt =====
-- How often a test holds in a list, and in a list of lists.
use Prim.Native.Nat.{ℕ, ◌+◌}
use mathlib.Core.Path.{◌≡◌, refl}
use mathlib.Core.Bool.{Bool}
use native.Mathlib.Omega.{arith}
use mathlib.Core.List.{List, [], ◌∷◌, ◌++◌}
use sandstorm_monorepo.Common.Lists.{length, filter, filter-append, length-append}

module _ {A : Type 0} where
  abbrev pub count : (A → Bool) → List A → ℕ
  count p xs = length (filter p xs)

  abbrev pub count_all : (A → Bool) → List (List A) → ℕ
  count_all p [] = 0
  count_all p (b ∷ bs) = count p b + count_all p bs

  pub count-append : (p : A → Bool) (xs ys : List A) → count p (xs ++ ys) ≡ count p xs + count p ys
  count-append p xs ys = rw (filter-append p xs ys) (length-append (filter p xs) (filter p ys))

  pub count_all-append :
      (p : A → Bool) (bs : List (List A)) (b : List A) (cs : List (List A))
      → count_all p (bs ++ b ∷ cs) ≡ count p b + count_all p (bs ++ cs)
  count_all-append p [] b cs = refl
  count_all-append p (c ∷ bs) b cs = omega (arith, count_all-append p bs b cs)
