-- ===== src/Common/Io/Logic.antt =====
-- The rules of the logic, one for each way of building code.
pub mod Loops
use Prim.Native.Nat.{suc}
use mathlib.Core.Path.{◌≡◌, refl, ap}
use mathlib.Core.Logic.{◌⊎◌, inl, inr}
use mathlib.Core.Bool.{Bool, true, false}
use mathlib.Core.Option.{Option, none, some}
use mathlib.Core.List.{List, [], ◌∷◌}
use sandstorm_monorepo.Common.Lists.{length}
use sandstorm_monorepo.Common.Io.{
  Thrown, Answer, thrown, returned, Io, and_then, ◌>>=◌, ◌>>◌, give, raise, settle, change, look,
  swallow, success, succeeds, or_raise, only_if, swallowed, rethrown, caught, on_throw, for_each,
  for_each_in, collect, catch, handled, ensure, ensured, settled_by,
}

-- Whether a call threw.
abbrev pub Threw : {A : Type 0} → Answer A → Type 0
Threw (thrown e) = Unit {0}
Threw (returned a) = ⊥

module _ {W : Type 0} where
  -- The state and the answer fulfil Q where the code returned, and the state fulfils E where it threw.
  abbrev pub Post : {A : Type 0} → (A → W → Type 0) → (W → Type 0) → Answer A × W → Type 0
  Post Q E (thrown e, w) = E w
  Post Q E (returned a, w) = Q a w

  -- Begun in a state of P, the code ends in one of these two ways.
  pub record Ends {A : Type 0} (P : W → Type 0) (m : Io W A) (Q : A → W → Type 0) (E : W → Type 0)
      : Type 0 where
    pub run : (w : W) → P w → Post Q E (m w)

  rethrown-Post :
      {A : Type 0} (E : W → Type 0) (Q : A → W → Type 0) (f : Thrown → Thrown) (e : Thrown)
      (r : Answer (Unit {0}) × W)
      → Post (λ _. E) E r
      → Post Q E (rethrown f e r)
  rethrown-Post E Q f e (thrown d, u) k = k
  rethrown-Post E Q f e (returned _, u) k = k

  -- The code keeps P, however it ends.
  abbrev pub Keeps : {A : Type 0} → (W → Type 0) → Io W A → Type 0
  Keeps P m = Ends P m (λ _. P) P

  module _ {A : Type 0} {P : W → Type 0} {E : W → Type 0} where
    pub give-Ends : (a : A) {Q : A → W → Type 0} → ((w : W) → P w → Q a w) → Ends P (give a) Q E
    unfolding give
    give-Ends a h = record { run = h }

    pub raise-Ends :
        (e : Thrown) {Q : A → W → Type 0} → ((w : W) → P w → E w) → Ends P (raise e) Q E
    unfolding raise
    raise-Ends e h = record { run = h }

    pub settle-Ends :
        (a : Answer A) {Q : A → W → Type 0}
        → ((w : W) → P w → Post Q E (a, w))
        → Ends P (settle a) Q E
    unfolding settle
    settle-Ends a h = record { run = h }

    pub look-Ends :
        (f : W → A) {Q : A → W → Type 0} → ((w : W) → P w → Q (f w) w) → Ends P (look f) Q E
    unfolding look
    look-Ends f h = record { run = h }

    pub on_throw-Ends :
        {F : W → Type 0} {m : Io W A} {cleanup : Io W (Unit {0})} (f : Thrown → Thrown)
        {Q : A → W → Type 0}
        → Ends P m Q F
        → Ends F cleanup (λ _. E) E
        → Ends P (on_throw m cleanup f) Q E
    unfolding on_throw
    on_throw-Ends {F} {m} {cleanup} f {Q} h c = record { run = λ w p. go (m w) (h.run w p) }
      where
        go : (r : Answer A × W) → Post Q F r → Post Q E (caught r cleanup f)
        go (returned a, v) q = q
        go (thrown e, v) q = rethrown-Post E Q f e (cleanup v) (c.run v q)

  and_then-Post :
      {A B : Type 0} (E : W → Type 0) (Q : A → W → Type 0) (R : B → W → Type 0) (r : Answer A × W)
      (k : A → Io W B)
      → Post Q E r
      → ((a : A) (w : W) → Q a w → Post R E (k a w))
      → Post R E (and_then r k)
  and_then-Post E Q R (thrown e, w) k q h = q
  and_then-Post E Q R (returned a, w) k q h = h a w q

  module _ {A B : Type 0} {P E : W → Type 0} {Q : A → W → Type 0} {R : B → W → Type 0} where
    pub bind-Ends :
        {m : Io W A} {k : A → Io W B}
        → Ends P m Q E
        → ((a : A) → Ends (Q a) (k a) R E)
        → Ends P (m >>= k) R E
    unfolding ◌>>=◌
    bind-Ends {m} {k} h g = record {
      run = λ w p. and_then-Post E Q R (m w) k (h.run w p) (λ a. (g a).run);
    }

  -- What does not depend on the state is a hypothesis of the code's rule.
  pub assume-Ends :
      {A : Type 0} {P E : W → Type 0} {Q : A → W → Type 0} {F : Type 0} {m : Io W A}
      → (F → Ends P m Q E)
      → Ends (λ w. P w × F) m Q E
  assume-Ends h = record { run = λ w (p, f). (h f).run w p }

  -- What the handler is given fulfils F, and it ends as the whole does.
  pub catch-Ends :
      {A : Type 0} {P E F : W → Type 0} {Q : A → W → Type 0} {m : Io W A}
      {handler : Thrown → Io W A}
      → Ends P m Q F
      → ((e : Thrown) → Ends F (handler e) Q E)
      → Ends P (catch m handler) Q E
  unfolding catch
  catch-Ends {A} {E = E} {F} {Q} {m} {handler} h k = record { run = λ w p. go (m w) (h.run w p) }
    where
      go : (r : Answer A × W) → Post Q F r → Post Q E (handled r handler)
      go (thrown e, v) q = (k e).run v q
      go (returned a, v) q = q

  -- However m ends, the cleanup decides what holds.
  pub ensure-Ends :
      {A : Type 0} {P E F : W → Type 0} {m : Io W A} {cleanup : Io W (Unit {0})}
      → Ends P m (λ _. F) F
      → Ends F cleanup (λ _. E) E
      → Ends P (ensure m cleanup) (λ _. E) E
  unfolding ensure
  ensure-Ends {A} {E = E} {F} {m} {cleanup} h c = record { run = λ w p. go (m w) (h.run w p) }
    where
      settled :
          (a : Answer A) (r : Answer (Unit {0}) × W)
          → Post (λ _. E) E r
          → Post (λ _. E) E (settled_by a r)
      settled a (thrown e, v) q = q
      settled (thrown e) (returned _, v) q = q
      settled (returned b) (returned _, v) q = q

      go : (r : Answer A × W) → Post (λ _. F) F r → Post (λ _. E) E (ensured r cleanup)
      go (thrown e, v) q = settled (thrown e) (cleanup v) (c.run v q)
      go (returned a, v) q = settled (returned a) (cleanup v) (c.run v q)

  -- Code of which the final state is known, and code that is also known not to throw.
  pub state-Ends :
      {A : Type 0} {P Q : W → Type 0} {m : Io W A}
      → ((w : W) → P w → Q (m w).1)
      → Ends P m (λ _. Q) Q
  state-Ends {A} {Q = Q} {m} h = record { run = λ w p. go (m w) (h w p) }
    where
      go : (r : Answer A × W) → Q r.1 → Post (λ _. Q) Q r
      go (thrown e, v) q = q
      go (returned a, v) q = q

  pub answer-Ends :
      {A : Type 0} {P Q E : W → Type 0} {m : Io W A}
      → ((w : W) → Post (λ _ _. Unit {0}) (λ _. ⊥) (m w))
      → ((w : W) → P w → Q (m w).1)
      → Ends P m (λ _. Q) E
  answer-Ends {A} {Q = Q} {E} {m} law h = record { run = λ w p. go (m w) (law w) (h w p) }
    where
      go : (r : Answer A × W) → Post (λ _ _. Unit {0}) (λ _. ⊥) r → Q r.1 → Post (λ _. Q) E r
      go (thrown e, v) never q = absurd never
      go (returned a, v) _ q = q

  -- Nothing is known before, and nothing holds after; and code that is never reached.
  pub any-Ends :
      {A : Type 0} (m : Io W A) → Ends (λ _. Unit {0}) m (λ _ _. Unit {0}) (λ _. Unit {0})
  any-Ends {A} m = record { run = λ w _. go (m w) }
    where
      go : (r : Answer A × W) → Post (λ _ _. Unit {0}) (λ _. Unit {0}) r
      go (thrown e, v) = tt
      go (returned a, v) = tt

  pub never-Ends :
      {A : Type 0} {E : W → Type 0} {Q : A → W → Type 0} (m : Io W A) → Ends (λ _. ⊥) m Q E
  never-Ends m = record { run = λ w p. absurd p }

  -- A choice of conditions before.
  pub either-Ends :
      {A : Type 0} {P O E : W → Type 0} {Q : A → W → Type 0} {m : Io W A}
      → Ends P m Q E
      → Ends O m Q E
      → Ends (λ w. P w ⊎ O w) m Q E
  either-Ends {A} {P} {O} {E} {Q} {m} h k = record { run = go }
    where
      go : (w : W) → P w ⊎ O w → Post Q E (m w)
      go w (inl p) = h.run w p
      go w (inr o) = k.run w o

  pub or_raise-Ends :
      {A : Type 0} {P E : W → Type 0} {Q : A → W → Type 0} (o : Option A) (e : Thrown)
      → (o ≡ none → (w : W) → P w → E w)
      → ((a : A) → o ≡ some a → (w : W) → P w → Q a w)
      → Ends P (or_raise o e) Q E
  unfolding or_raise
  or_raise-Ends none e missing there = record { run = missing refl }
  or_raise-Ends (some a) e missing there = record { run = there a refl }

  -- The state after a normal end fulfils a weaker condition too.
  pub relax-Ends :
      {A : Type 0} {P E : W → Type 0} {Q Q2 : A → W → Type 0} {m : Io W A}
      → Ends P m Q E
      → ((a : A) (w : W) → Q a w → Q2 a w)
      → Ends P m Q2 E
  relax-Ends {A} {E = E} {Q} {Q2} {m} h weaker = record { run = λ w p. go (m w) (h.run w p) }
    where
      go : (r : Answer A × W) → Post Q E r → Post Q2 E r
      go (thrown e, v) q = q
      go (returned a, v) q = weaker a v q

  -- The same for the state after a throw.
  pub fails-Ends :
      {A : Type 0} {P E F : W → Type 0} {Q : A → W → Type 0} {m : Io W A}
      → Ends P m Q E
      → ((w : W) → E w → F w)
      → Ends P m Q F
  fails-Ends {A} {E = E} {F} {Q} {m} h weaker = record { run = λ w p. go (m w) (h.run w p) }
    where
      go : (r : Answer A × W) → Post Q E r → Post Q F r
      go (thrown e, v) q = weaker v q
      go (returned a, v) q = q

  module _ {P Q E : W → Type 0} where
    pub then-Ends :
        {B : Type 0} {R : B → W → Type 0} {m : Io W (Unit {0})} {k : Io W B}
        → Ends P m (λ _. Q) E
        → Ends Q k R E
        → Ends P (m >> k) R E
    unfolding ◌>>◌
    then-Ends {R = R} {m} {k} h g = record {
      run = λ w p. and_then-Post E (λ _. Q) R (m w) (λ _. k) (h.run w p) (λ _. g.run);
    }

    pub only_if-Ends :
        {m : Io W (Unit {0})} (b : Bool)
        → (b ≡ true → Ends P m (λ _. Q) E)
        → (b ≡ false → (w : W) → P w → Q w)
        → Ends P (only_if b m) (λ _. Q) E
    unfolding only_if
    only_if-Ends false then_case else_case = record { run = else_case refl }
    only_if-Ends true then_case else_case = record { run = (then_case refl).run }

    pub change-Ends : (f : W → W) → ((w : W) → P w → Q (f w)) → Ends P (change f) (λ _. Q) E
    unfolding change
    change-Ends f h = record { run = h }

    pub swallow-Ends :
        {A : Type 0} {m : Io W A} → Ends P m (λ _. Q) Q → Ends P (swallow m) (λ _. Q) E
    unfolding swallow
    swallow-Ends {A} {m} h = record { run = λ w p. go (m w) (h.run w p) }
      where
        go : (r : Answer A × W) → Post (λ _. Q) Q r → Post (λ _. Q) E (swallowed r)
        go (thrown e, v) q = q
        go (returned a, v) q = q

  pub succeeds-Keeps : {A : Type 0} {P : W → Type 0} {m : Io W A} → Keeps P m → Keeps P (succeeds m)
  unfolding succeeds
  succeeds-Keeps {A} {P} {m} h = record { run = λ w p. go (m w) (h.run w p) }
    where
      go : (r : Answer A × W) → Post (λ _. P) P r → Post (λ _. P) P (success r)
      go (thrown e, v) q = q
      go (returned a, v) q = q

  pub settle-Keeps : {A : Type 0} {P : W → Type 0} (a : Answer A) → Keeps P (settle a)
  settle-Keeps (thrown e) = settle-Ends (thrown e) (λ w p. p)
  settle-Keeps (returned a) = settle-Ends (returned a) (λ w p. p)

  pub or_raise-Keeps :
      {A : Type 0} {P : W → Type 0} (o : Option A) (e : Thrown) → Keeps P (or_raise o e)
  unfolding or_raise
  or_raise-Keeps none e = record { run = λ w p. p }
  or_raise-Keeps (some a) e = record { run = λ w p. p }

  pub only_if-Keeps :
      {P : W → Type 0} {m : Io W (Unit {0})} (b : Bool) → Keeps P m → Keeps P (only_if b m)
  unfolding only_if
  only_if-Keeps false h = record { run = λ w p. p }
  only_if-Keeps true h = record { run = h.run }
