-- ===== src/Common/Sublists.antt =====
-- Lists with some items left out.
use Prim.Native.Nat.{ℕ, zero, suc}
use mathlib.Core.List.{List, [], ◌∷◌, ◌++◌}
use sandstorm_monorepo.Common.Lists.{drop}

-- Sublist xs ys: xs is ys with some items left out.
pub data Sublist {B : Type 0} : List B → List B → Type 0 where
  none_left : Sublist [] []
  keep : {xs ys : List B} (x : B) → Sublist xs ys → Sublist (x ∷ xs) (x ∷ ys)
  skip : {xs ys : List B} (x : B) → Sublist xs ys → Sublist xs (x ∷ ys)

module _ {B : Type 0} where
  pub all_of : (xs : List B) → Sublist xs xs
  all_of [] = none_left
  all_of (x ∷ xs) = keep x (all_of xs)

  pub nothing_of : (xs : List B) → Sublist [] xs
  nothing_of [] = none_left
  nothing_of (x ∷ xs) = skip x (nothing_of xs)

  pub drop-Sublist : (n : ℕ) (xs : List B) → Sublist (drop n xs) xs
  drop-Sublist zero xs = all_of xs
  drop-Sublist (suc n) [] = none_left
  drop-Sublist (suc n) (x ∷ xs) = skip x (drop-Sublist n xs)

  pub append-Sublist :
      (xs ys vs ws : List B) → Sublist xs ys → Sublist vs ws → Sublist (xs ++ vs) (ys ++ ws)
  append-Sublist _ _ vs ws none_left t = t
  append-Sublist _ _ vs ws (keep {xs} {ys} x s) t = keep x (append-Sublist xs ys vs ws s t)
  append-Sublist xs _ vs ws (skip {ys} x s) t = skip x (append-Sublist xs ys vs ws s t)

  pub Sublist-trans : (xs ys zs : List B) → Sublist xs ys → Sublist ys zs → Sublist xs zs
  Sublist-trans xs ys _ s (skip {ys = zs} y t) = skip y (Sublist-trans xs ys zs s t)
  Sublist-trans xs _ _ s none_left = s
  Sublist-trans _ _ _ (keep {xs} x s) (keep {xs = ys} {ys = zs} y t) =
      keep y (Sublist-trans xs ys zs s t)
  Sublist-trans xs _ _ (skip x s) (keep {xs = ys} {ys = zs} y t) =
      skip y (Sublist-trans xs ys zs s t)
