-- ===== src/Common/Result.antt =====
-- The outcome of a call that may throw, or of a promise that may be rejected.
use mathlib.Core.Path.{◌≡◌, refl}
use mathlib.Core.Bool.{Bool, true, false}
use Prim.Native.String.{String}

pub data Result {ℓ} (A : Type ℓ) : Type ℓ where
  throw : String → Result A
  ok : A → Result A

infixl 5 ◌>>=◌
abbrev pub ◌>>=◌ {κ ℓ} : {B : Type κ} {A : Type ℓ} (m : Result A) → (A → Result B) → Result B
throw e >>= f = throw e
ok a >>= f = f a

abbrev pub throw_if : Bool → String → Result (Unit {0})
throw_if true e = throw e
throw_if false e = ok tt

-- One call after another, the first for its effect.
infixl 5 ◌>>◌
abbrev pub ◌>>◌ {ℓ} : {B : Type ℓ} (m : Result (Unit {0})) → Result B → Result B
throw e >> k = throw e
ok tt >> k = k

pub bind-eq-ok {κ ℓ} :
    {B : Type κ} {A : Type ℓ} {b : B} (m : Result A) (f : A → Result B)
    → (m >>= f) ≡ ok b
    → (a : A) × (m ≡ ok a) × (f a ≡ ok b)
bind-eq-ok (throw e) f h = cc
bind-eq-ok (ok a) f h = (a, refl, h)
