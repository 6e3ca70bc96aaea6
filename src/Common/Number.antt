-- ===== src/Common/Number.antt =====
-- JavaScript's numbers, as far as the program computes with them. They are not code of the
-- repository: the definitions take them as an instance, and the laws that a theorem rests on
-- are a hypothesis of it.
use Prim.Native.Nat.{ℕ, ◌+◌, ◌-◌, ◌*◌, ◌/◌, ◌^◌}
use mathlib.Core.Path.{◌≡◌, refl}
use mathlib.Core.Bool.{Bool, true, false, not}
use mathlib.Core.Option.{Option, none, some}
use native.Mathlib.Omega.{arith}
use sandstorm_monorepo.Common.Tests.{ltb, ◌==◌, nat_eq, if◌then◌else◌}

pub record JsNumber (A : Type 0) : Type 0 where
  pub add : A → A → A
  pub sub : A → A → A
  pub mul : A → A → A
  pub div : A → A → A
  pub lt : A → A → Bool
  pub truthy : A → Bool
  -- `Math.ceil` and `Math.round`
  pub ceil : A → A
  pub round : A → A
  -- `a === b`
  pub same : A → A → Bool
  -- What arithmetic on `undefined` gives.
  pub nan : A
  -- `literal m k` is the decimal literal m × 10^-k.
  pub literal : ℕ → ℕ → A

module _ {A : Type 0} ⦃n : JsNumber A⦄ where
  infixl 65 ◌⊕◌ ◌⊖◌
  infixl 70 ◌⊗◌ ◌⊘◌
  infix 50 ◌≺◌ ◌≻◌ ◌≽◌
  abbrev pub ◌⊕◌ : A → A → A
  a ⊕ b = n.add a b

  abbrev pub ◌⊖◌ : A → A → A
  a ⊖ b = n.sub a b

  abbrev pub ◌⊗◌ : A → A → A
  a ⊗ b = n.mul a b

  abbrev pub ◌⊘◌ : A → A → A
  a ⊘ b = n.div a b

  abbrev pub ◌≺◌ : A → A → Bool
  a ≺ b = n.lt a b

  abbrev pub ◌≻◌ : A → A → Bool
  a ≻ b = n.lt b a

  -- On numbers other than NaN.
  abbrev pub ◌≽◌ : A → A → Bool
  a ≽ b = not (n.lt a b)

  -- A literal without and with decimals.
  abbrev pub num : ℕ → A
  num m = n.literal m 0

  abbrev pub dec : ℕ → ℕ → A
  dec m k = n.literal m k

  -- `value || fallback` for an optional number: 0 counts as absent.
  abbrev pub or_number : Option A → A → A
  or_number none fallback = fallback
  or_number (some a) fallback = if n.truthy a then a else fallback

-- The laws of `===` on small literals.
pub record HasLiterals {A : Type 0} (n : JsNumber A) : Type 0 where
  pub one_same : n.same (n.literal 1 0) (n.literal 1 0) ≡ true
  pub zero_other : n.same (n.literal 0 0) (n.literal 1 0) ≡ false

-- The comparison of numbers other than NaN: a strict weak order.
pub record IsOrdered {A : Type 0} (n : JsNumber A) : Type 0 where
  pub lt_irrefl : (a : A) → n.lt a a ≡ false
  pub lt_asymm : (a b : A) → n.lt a b ≡ true → n.lt b a ≡ false
  pub le_trans : (a b c : A) → n.lt b a ≡ false → n.lt c b ≡ false → n.lt c a ≡ false

-- Fixed-point numbers with six decimals, none negative: an instance for tests.
instance abbrev pub micro : JsNumber ℕ
micro = record {
  add = λ a b. a + b;
  sub = λ a b. a - b;
  mul = λ a b. a * b / 1000000;
  div = λ a b. a * 1000000 / b;
  lt = ltb;
  truthy = λ a. not (a == 0);
  ceil = λ a. (a + 999999) / 1000000 * 1000000;
  round = λ a. (a + 500000) / 1000000 * 1000000;
  same = λ a b. a == b;
  nan = 0;
  literal = λ m k. m * 1000000 / 10 ^ k;
}

pub micro-IsOrdered : IsOrdered micro
micro-IsOrdered = record {
  lt_irrefl = λ a. ground arith;
  lt_asymm = λ a b h. ground arith;
  le_trans = λ a b c h k. ground arith;
}

pub micro-HasLiterals : HasLiterals micro
micro-HasLiterals = record { one_same = refl; zero_other = refl }
