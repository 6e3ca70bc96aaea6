-- ===== src/Common/Io/Logic/Loops.antt =====
-- The rules for loops over a list.
use Prim.Native.Nat.{suc}
use mathlib.Core.Path.{◌≡◌, refl, ap}
use mathlib.Core.Option.{Option, none, some}
use mathlib.Core.List.{List, [], ◌∷◌}
use sandstorm_monorepo.Common.Lists.{length}
use sandstorm_monorepo.Common.Io.{Io, for_each, for_each_in, collect}
use sandstorm_monorepo.Common.Io.Logic.{Ends, Keeps, and_then-Post}

module _ {W : Type 0} where
  module _ {A : Type 0} {P : W → Type 0} {f : A → Io W (Unit {0})} where
    pub for_each-Keeps : (xs : List A) → ((x : A) → Keeps P (f x)) → Keeps P (for_each xs f)
    unfolding for_each
    for_each-Keeps [] h = record { run = λ w p. p }
    for_each-Keeps (x ∷ xs) h =
        let rest = for_each-Keeps xs h in
        record {
          run = λ w p.
              and_then-Post P (λ _. P) (λ _. P) (f x w) (λ _. for_each xs f) ((h x).run w p)
                (λ _. rest.run);
        }

    pub for_each_in-Keeps :
        (xs : Option (List A)) → ((x : A) → Keeps P (f x)) → Keeps P (for_each_in xs f)
    unfolding for_each_in
    for_each_in-Keeps none h = record { run = λ w p. p }
    for_each_in-Keeps (some xs) h = record { run = (for_each-Keeps xs h).run }

  pub collect-Keeps :
      {A B : Type 0} {P : W → Type 0} {f : A → Io W B} (xs : List A)
      → ((x : A) → Keeps P (f x))
      → Keeps P (collect xs f)
  unfolding collect
  collect-Keeps [] h = record { run = λ w p. p }
  collect-Keeps {P = P} {f} (x ∷ xs) h =
      let rest = collect-Keeps xs h in
      record {
        run = λ w p.
            and_then-Post P (λ _. P) (λ _. P) (f x w) _ ((h x).run w p)
              λ y v q.
                and_then-Post P (λ _. P) (λ _. P) (collect xs f v) _ (rest.run v q) (λ ys u r. r);
      }

  -- The answers are as many as the elements of the list.
  pub collect-Ends :
      {A B : Type 0} {P E : W → Type 0} {f : A → Io W B} (xs : List A)
      → ((x : A) → Ends P (f x) (λ _. P) E)
      → Ends P (collect xs f) (λ ys w. P w × (length ys ≡ length xs)) E
  unfolding collect
  collect-Ends [] h = record { run = λ w p. (p, refl) }
  collect-Ends {P = P} {E} {f} (x ∷ xs) h =
      let rest = collect-Ends xs h in
      record {
        run = λ w p.
            and_then-Post E (λ _. P) (λ ys v. P v × (length ys ≡ suc (length xs))) (f x w) _
              ((h x).run w p)
              λ y v q.
                and_then-Post E (λ ys u. P u × (length ys ≡ length xs))
                  (λ ys u. P u × (length ys ≡ suc (length xs))) (collect xs f v) _ (rest.run v q)
                  (λ ys u (r, same). (r, ap suc same));
      }
