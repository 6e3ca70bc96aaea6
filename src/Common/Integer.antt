-- ===== src/Common/Integer.antt =====
-- Integers over the native natural numbers, and JavaScript's `slice` with integer ends.
use Prim.Native.Nat.{ℕ, suc, ◌+◌, ◌-◌}
use mathlib.Core.Bool.{Bool, true}
use mathlib.Core.List.{List}
use sandstorm_monorepo.Common.Tests.{if◌then◌else◌, ltb}
use sandstorm_monorepo.Common.Lists.{length, take, drop}

-- `negsuc k` is -(k + 1).
pub data ℤ : Type 0 where
  pos negsuc : ℕ → ℤ

infixl 6 ◌+ℤ◌
abbrev pub ◌+ℤ◌ : ℤ → ℤ → ℤ
pos a +ℤ pos b = pos (a + b)
pos a +ℤ negsuc b = if ltb b a then pos (a - suc b) else negsuc (b - a)
negsuc a +ℤ pos b = if ltb a b then pos (b - suc a) else negsuc (a - b)
negsuc a +ℤ negsuc b = negsuc (suc (a + b))

-- `i < n`
abbrev pub below : ℤ → ℕ → Bool
below (pos i) n = ltb i n
below (negsuc i) n = true

-- The place that an end of a slice stands for: a negative one counts from the end of the list.
abbrev pub place : ℕ → ℤ → ℕ
place n (pos i) = i
place n (negsuc i) = n - suc i

abbrev pub slice : {A : Type 0} → ℤ → ℤ → List A → List A
slice i j xs = take (place (length xs) j - place (length xs) i) (drop (place (length xs) i) xs)
