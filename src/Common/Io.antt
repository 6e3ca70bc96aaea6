-- ===== src/Common/Io.antt =====
-- Asynchronous code that reads and changes a state and may throw, run from one end to the other; and
-- a small logic for it, with a condition for a normal end and one for an end by a throw.
pub mod Logic
use Prim.Native.String.{String}
use mathlib.Core.Bool.{Bool, true, false}
use mathlib.Core.Option.{Option, none, some}
use mathlib.Core.List.{List, [], ◌∷◌}

-- What `throw` throws: an `Error` with its message, or another value, as its text.
pub data Thrown : Type 0 where
  error_of value_of : String → Thrown

pub data Answer (A : Type 0) : Type 0 where
  thrown : Thrown → Answer A
  returned : A → Answer A

abbrev pub Io : Type 0 → Type 0 → Type 0
Io W A = W → Answer A × W

module _ {W : Type 0} where
  abbrev pub and_then : {A B : Type 0} → Answer A × W → (A → Io W B) → Answer B × W
  and_then (thrown e, w) f = (thrown e, w)
  and_then (returned a, w) f = f a w

  infixl 5 ◌>>=◌ ◌>>◌
  unfoldable pub ◌>>=◌ : {A B : Type 0} → Io W A → (A → Io W B) → Io W B
  ◌>>=◌ m f w = and_then (m w) f

  unfoldable pub ◌>>◌ : {B : Type 0} → Io W (Unit {0}) → Io W B → Io W B
  ◌>>◌ m k w = and_then (m w) (λ _. k)

  unfoldable pub give : {A : Type 0} → A → Io W A
  give a w = (returned a, w)

  unfoldable pub raise : {A : Type 0} → Thrown → Io W A
  raise e w = (thrown e, w)

  unfoldable pub settle : {A : Type 0} → Answer A → Io W A
  settle a w = (a, w)

  -- A change of the state that does not throw, and a look at it.
  unfoldable pub change : (W → W) → Io W (Unit {0})
  change f w = (returned tt, f w)

  unfoldable pub look : {A : Type 0} → (W → A) → Io W A
  look f w = (returned (f w), w)

  -- `try { m } catch { log }`
  abbrev pub swallowed : {A : Type 0} → Answer A × W → Answer (Unit {0}) × W
  swallowed (a, w) = (returned tt, w)

  unfoldable pub swallow : {A : Type 0} → Io W A → Io W (Unit {0})
  swallow m w = swallowed (m w)

  -- `try { m; return true } catch { return false }`
  abbrev pub success : {A : Type 0} → Answer A × W → Answer Bool × W
  success (thrown e, w) = (returned false, w)
  success (returned a, w) = (returned true, w)

  unfoldable pub succeeds : {A : Type 0} → Io W A → Io W Bool
  succeeds m w = success (m w)

  -- `try { m } catch { return a }`
  abbrev pub recovered : {A : Type 0} → A → Answer A × W → Answer A × W
  recovered a (thrown e, w) = (returned a, w)
  recovered a (returned b, w) = (returned b, w)

  unfoldable pub recover : {A : Type 0} → Io W A → A → Io W A
  recover m a w = recovered a (m w)

  -- `value ?? throw`, and code under an `if`.
  unfoldable pub or_raise : {A : Type 0} → Option A → Thrown → Io W A
  or_raise none e w = (thrown e, w)
  or_raise (some a) e w = (returned a, w)

  unfoldable pub only_if : Bool → Io W (Unit {0}) → Io W (Unit {0})
  only_if false m w = (returned tt, w)
  only_if true m w = m w

  -- `try { m } catch (e) { cleanup; throw f(e) }`, where a throw of the cleanup replaces e.
  abbrev pub rethrown :
      {A : Type 0} → (Thrown → Thrown) → Thrown → Answer (Unit {0}) × W → Answer A × W
  rethrown f e (thrown d, w) = (thrown d, w)
  rethrown f e (returned _, w) = (thrown (f e), w)

  abbrev pub caught :
      {A : Type 0} → Answer A × W → Io W (Unit {0}) → (Thrown → Thrown) → Answer A × W
  caught (thrown e, w) cleanup f = rethrown f e (cleanup w)
  caught (returned a, w) cleanup f = (returned a, w)

  unfoldable pub on_throw : {A : Type 0} → Io W A → Io W (Unit {0}) → (Thrown → Thrown) → Io W A
  on_throw m cleanup f w = caught (m w) cleanup f

  -- `try { m } catch (e) { return handler(e) }`
  abbrev pub handled : {A : Type 0} → Answer A × W → (Thrown → Io W A) → Answer A × W
  handled (thrown e, w) handler = handler e w
  handled (returned a, w) handler = (returned a, w)

  unfoldable pub catch : {A : Type 0} → Io W A → (Thrown → Io W A) → Io W A
  catch m handler w = handled (m w) handler

  -- `try { m } finally { cleanup }`, where a throw of the cleanup replaces how m ended.
  abbrev pub settled_by : {A : Type 0} → Answer A → Answer (Unit {0}) × W → Answer A × W
  settled_by a (thrown e, w) = (thrown e, w)
  settled_by a (returned _, w) = (a, w)

  abbrev pub ensured : {A : Type 0} → Answer A × W → Io W (Unit {0}) → Answer A × W
  ensured (a, w) cleanup = settled_by a (cleanup w)

  unfoldable pub ensure : {A : Type 0} → Io W A → Io W (Unit {0}) → Io W A
  ensure m cleanup w = ensured (m w) cleanup

  unfoldable pub for_each : {A : Type 0} → List A → (A → Io W (Unit {0})) → Io W (Unit {0})
  for_each [] f w = (returned tt, w)
  for_each (x ∷ xs) f w = let rest = for_each xs f in and_then (f x w) (λ _. rest)

  -- `if (list) for (const x of list) …`
  unfoldable pub for_each_in :
      {A : Type 0} → Option (List A) → (A → Io W (Unit {0})) → Io W (Unit {0})
  for_each_in none f w = (returned tt, w)
  for_each_in (some xs) f w = for_each xs f w

  -- `results.push(await f(x))` over a list.
  unfoldable pub collect : {A B : Type 0} → List A → (A → Io W B) → Io W (List B)
  collect [] f w = (returned [], w)
  collect (x ∷ xs) f w =
      let rest = collect xs f in
      and_then (f x w) (λ y v. and_then (rest v) (λ ys u. (returned (y ∷ ys), u)))
