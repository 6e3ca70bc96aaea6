-- ===== src/Adapters/BareMetal/Waits.antt =====
-- packages/adapters/bare-metal: the loop that waits for a node.
use sandstorm_monorepo.Common.{
  ℕ, zero, suc, ◌≤◌, ◌<◌, Bool, true, false, ◌≡◌, refl, ap, ◌∙◌, sym, ◌↔◌, if◌then◌else◌, arith,
}
use sandstorm_monorepo.Common.Number.{JsNumber}
use sandstorm_monorepo.Common.Text.{JsText}
use sandstorm_monorepo.Common.Io.{
  Answer, thrown, returned, and_then, success, succeeds, ◌>>=◌, give, raise,
}
use sandstorm_monorepo.Adapters.BareMetal.Nodes.{BareMetalNode}
use sandstorm_monorepo.Adapters.BareMetal.Machine.{
  Ssh, BareMetalWorld, attempt, wait_attempts, wait_for_node,
}

module _ {A R : Type 0} ⦃n : JsNumber A⦄ ⦃t : JsText A⦄ (ssh : Ssh A R)
    (node : BareMetalNode A) where
  -- The state after some attempts, and whether the next one succeeds there.
  abbrev pub after : ℕ → BareMetalWorld ssh → BareMetalWorld ssh
  after zero w = w
  after (suc k) w = after k (attempt ssh node w).1

  abbrev pub OnlineAt : ℕ → BareMetalWorld ssh → Type 0
  OnlineAt k w = (attempt ssh node (after k w)).0 ≡ returned true

  -- An attempt does not throw.
  attempt-returned :
      (w : BareMetalWorld ssh)
      → (b : Bool) × (v : BareMetalWorld ssh) × (attempt ssh node w ≡ (returned b, v))
  unfolding succeeds
  attempt-returned w = by_answer _
    where
      by_answer :
          (r : Answer (Unit {0}) × BareMetalWorld ssh)
          → (b : Bool) × (v : BareMetalWorld ssh) × (success r ≡ (returned b, v))
      by_answer (thrown e, v) = (false, v, refl)
      by_answer (returned a, v) = (true, v, refl)

  -- How the loop ends, from a state with `left` attempts to go.
  EndsWithin : ℕ → BareMetalWorld ssh → Type 0
  EndsWithin left w =
      ((j : ℕ) × (j ≤ left) × ((wait_attempts ssh left node w).1 ≡ after j w))
      × (((wait_attempts ssh left node w).0 ≡ returned tt) ↔ ((k : ℕ) × (k < left) × OnlineAt k w))

  wait-EndsWithin : (left : ℕ) (w : BareMetalWorld ssh) → EndsWithin left w
  unfolding EndsWithin wait_attempts ◌>>=◌ raise give
  wait-EndsWithin zero w =
      ((0, omega arith, refl), (λ e. cc, λ (k, below, _). absurd (omega (arith, below))))
  wait-EndsWithin (suc left) w =
      let (b, v, e) = attempt-returned w in go b v e (wait-EndsWithin left v)
    where
      continue : Bool → BareMetalWorld ssh → Answer (Unit {0}) × BareMetalWorld ssh
      continue online = if online then give tt else wait_attempts ssh left node

      -- An attempt after the failed first one is one from the state after that.
      later :
          (v : BareMetalWorld ssh) (k : ℕ)
          → attempt ssh node w ≡ (returned false, v)
          → k < suc left
          → OnlineAt k w
          → (i : ℕ) × (i < left) × OnlineAt i v
      later v zero e below online = cc (ap (λ r. r.0) e)
      later v (suc k) e below online =
          (k, omega (arith, below), sym (ap (λ r. (attempt ssh node (after k r.1)).0) e) ∙ online)

      go :
          (b : Bool) (v : BareMetalWorld ssh)
          → attempt ssh node w ≡ (returned b, v)
          → EndsWithin left v
          → EndsWithin (suc left) w
      go true v e ih = (
        (1, omega arith, ap (λ r. (and_then r continue).1) e ∙ sym (ap (λ r. r.1) e)),
        (λ _. (0, omega arith, ap (λ r. r.0) e), λ _. ap (λ r. (and_then r continue).0) e),
      )
      go false v e ((j, le, same), (to, from)) = (
        (
          suc j,
          omega (arith, le),
          ap (λ r. (and_then r continue).1) e ∙ same ∙ sym (ap (λ r. after j r.1) e),
        ),
        (
          λ h.
              let (k, below, online) = to (sym (ap (λ r. (and_then r continue).0) e) ∙ h) in
              (
                suc k,
                omega (arith, below),
                ap (λ r. (attempt ssh node (after k r.1)).0) e ∙ online,
              ),
          λ (k, below, online).
              ap (λ r. (and_then r continue).0) e ∙ from (later v k e below online),
        ),
      )

  -- The wait for a node ends after at most 60 attempts, in the state after them; and it returns exactly
  -- when one of the first 60 attempts, each made in the state after those before it, succeeds.
  pub wait_for_node-ends :
      (w : BareMetalWorld ssh)
      → ((j : ℕ) × (j ≤ 60) × ((wait_for_node ssh node w).1 ≡ after j w))
        × (((wait_for_node ssh node w).0 ≡ returned tt) ↔ ((k : ℕ) × (k < 60) × OnlineAt k w))
  unfolding wait_for_node EndsWithin
  wait_for_node-ends w = wait-EndsWithin 60 w
