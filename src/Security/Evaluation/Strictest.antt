-- ===== src/Security/Evaluation/Strictest.antt =====
-- packages/security/src/monitor.ts: what `evaluateEvent` returns.
use mathlib.Core.List.Memᴰ
use sandstorm_monorepo.Common.{
  ℕ, ◌≤◌, String, ◌≡◌, refl, sym, subst, ◌∙◌, ◌⊎◌, inl, inr, Bool, true, false, List, [], ◌∷◌, ◌++◌,
  Memᴰ, if◌then◌else◌, filter, arith, Bool-cases, append_nil,
}
use sandstorm_monorepo.Common.Dict.{values}
use sandstorm_monorepo.Common.Result.{Result, ok, throw, bind-eq-ok}
use sandstorm_monorepo.Core.Security.{SecurityEvent, allow, SecurityRule, SecurityPolicy}
use sandstorm_monorepo.Security.Monitor.{SecurityMonitor}
use sandstorm_monorepo.Security.Evaluation.{
  Evaluation, restrictiveness, is_more_restrictive, matches_rule, record_match, record_if,
  evaluate_rules, enabled_rules, evaluate_policies, nothing_matched, evaluate_event,
}

abbrev pub is_ok_true : Result Bool → Bool
is_ok_true (ok b) = b
is_ok_true (throw e) = false

abbrev pub names : List SecurityRule → List String
names [] = []
names (r ∷ rs) = r.name ∷ names rs

names-append : (rs qs : List SecurityRule) → names (rs ++ qs) ≡ names rs ++ names qs
names-append [] qs = refl
names-append (r ∷ rs) qs = rw (names-append rs qs) refl

append_assoc : (xs ys zs : List String) → (xs ++ ys) ++ zs ≡ xs ++ (ys ++ zs)
append_assoc [] ys zs = refl
append_assoc (x ∷ xs) ys zs = rw (append_assoc xs ys zs) refl

filter-rules :
    (p : SecurityRule → Bool) (rs qs : List SecurityRule)
    → filter p (rs ++ qs) ≡ filter p rs ++ filter p qs
filter-rules p [] qs = refl
filter-rules p (r ∷ rs) qs = ground (arith, filter-rules p rs qs)

-- The rules of the enabled policies, in the order in which they are checked.
abbrev pub all_rules : List SecurityPolicy → List SecurityRule
all_rules [] = []
all_rules (p ∷ ps) = (if p.enabled then p.rules else []) ++ all_rules ps

-- `after` is `before` once the rules rs have matched: their names are added in order, and the
-- action is one of theirs or the old one, and no less restrictive than any of these.
pub record Adds (rs : List SecurityRule) (before after : Evaluation) : Type 0 where
  pub same_names : after.matched_rules ≡ before.matched_rules ++ names rs
  pub not_below : restrictiveness before.action ≤ restrictiveness after.action
  pub above :
      (r : SecurityRule) → Memᴰ r rs → restrictiveness r.action ≤ restrictiveness after.action
  pub origin :
      (after.action ≡ before.action) ⊎ ((r : SecurityRule) × Memᴰ r rs × (r.action ≡ after.action))

Adds-none : (e : Evaluation) → Adds [] e e
Adds-none e = record {
  same_names = sym (append_nil e.matched_rules);
  not_below = omega arith;
  above = λ r m. absurd (Memᴰ.not-nil m);
  origin = inl refl;
}

Adds-trans :
    (rs qs : List SecurityRule) (a b c : Evaluation)
    → Adds rs a b
    → Adds qs b c
    → Adds (rs ++ qs) a c
Adds-trans rs qs a b c h k = record {
  same_names =
      k.same_names
      ∙ rw (h.same_names, names-append rs qs) (append_assoc a.matched_rules (names rs) (names qs));
  not_below = omega (arith, h.not_below, k.not_below);
  above = λ r m. elim (Memᴰ.append_cases rs m) [
    | inl old ↦ omega (arith, h.above r old, k.not_below)
    | inr new ↦ k.above r new
  ];
  origin = elim k.origin [
    | inr (r, m, e) ↦ inr (r, Memᴰ.append_right rs m, e)
    | inl same ↦ elim h.origin [
      | inl before ↦ inl (same ∙ before)
      | inr (r, m, e) ↦ inr (r, Memᴰ.append_left qs m, e ∙ sym same)
    ]
  ];
}

Adds-one : (r : SecurityRule) (e : Evaluation) → Adds (r ∷ []) e (record_match r e)
Adds-one r e = elim (Bool-cases (is_more_restrictive r.action e.action)) [
  | inl more ↦ record {
    same_names = refl;
    not_below = ground (arith, more);
    above = λ q m. elim (Memᴰ.cases_cons m) [
      | inl same ↦ ground (arith, more, same)
      | inr later ↦ absurd (Memᴰ.not-nil later)
    ];
    origin = inr (r, Memᴰ.head refl, ground (arith, more));
  }
  | inr not_more ↦ record {
    same_names = refl;
    not_below = ground (arith, not_more);
    above = λ q m. elim (Memᴰ.cases_cons m) [
      | inl same ↦ ground (arith, not_more, same)
      | inr later ↦ absurd (Memᴰ.not-nil later)
    ];
    origin = inl (ground (arith, not_more));
  }
]

module _ (get_time : String → ℕ) (pattern_test : String → SecurityEvent → Result Bool)
    (events : List SecurityEvent) (event : SecurityEvent) where
  abbrev pub is_match : SecurityRule → Bool
  is_match r = is_ok_true (matches_rule get_time pattern_test events event r)

  evaluate_rules-Adds :
      (rs : List SecurityRule) (e after : Evaluation)
      → evaluate_rules get_time pattern_test events event rs e ≡ ok after
      → Adds (filter is_match rs) e after
  unfolding evaluate_rules
  evaluate_rules-Adds [] e after h = subst (Adds [] e) (cc) (Adds-none e)
  evaluate_rules-Adds (r ∷ rs) e after h =
      let (b, found, rest) =
        bind-eq-ok (matches_rule get_time pattern_test events event r)
          (λ b. evaluate_rules get_time pattern_test events event rs (record_if b r e)) h in
      rw found (go b (evaluate_rules-Adds rs (record_if b r e) after rest))
    where
      go :
          (b : Bool)
          → Adds (filter is_match rs) (record_if b r e) after
          → Adds (if b then r ∷ filter is_match rs else filter is_match rs) e after
      go true k =
          Adds-trans (r ∷ []) (filter is_match rs) e (record_match r e) after (Adds-one r e) k
      go false k = k

  evaluate_policies-Adds :
      (ps : List SecurityPolicy) (e after : Evaluation)
      → evaluate_policies get_time pattern_test events event ps e ≡ ok after
      → Adds (filter is_match (all_rules ps)) e after
  unfolding evaluate_policies
  evaluate_policies-Adds [] e after h = subst (Adds [] e) (cc) (Adds-none e)
  evaluate_policies-Adds (p ∷ ps) e after h =
      let (middle, first, rest) =
        bind-eq-ok (evaluate_rules get_time pattern_test events event (enabled_rules p) e)
          (λ m. evaluate_policies get_time pattern_test events event ps m) h in
      rw (filter-rules is_match (enabled_rules p) (all_rules ps)) (
        Adds-trans (filter is_match (enabled_rules p)) (filter is_match (all_rules ps)) e middle
          after (evaluate_rules-Adds (enabled_rules p) e middle first)
          (evaluate_policies-Adds ps middle after rest))

-- Where `evaluateEvent` returns, `matchedRules` are the names of exactly the matching rules of the
-- enabled policies, in order; the action is at least as restrictive as that of each of these rules;
-- and it is the action of one of them or, failing that, `allow`.
pub evaluate_event-strictest :
    (get_time : String → ℕ) (pattern_test : String → SecurityEvent → Result Bool)
    (event : SecurityEvent) (monitor : SecurityMonitor) (result : Evaluation)
    → evaluate_event get_time pattern_test event monitor ≡ ok result
    → let rules =
        filter
          (is_match get_time pattern_test monitor.events event)
          (all_rules (values monitor.policies)) in
      (result.matched_rules ≡ names rules)
      × ((r : SecurityRule)
          → Memᴰ r rules
          → restrictiveness r.action ≤ restrictiveness result.action)
      × ((result.action ≡ allow) ⊎ ((r : SecurityRule) × Memᴰ r rules × (r.action ≡ result.action)))
unfolding evaluate_event
evaluate_event-strictest get_time pattern_test event monitor result h =
    let k =
      evaluate_policies-Adds get_time pattern_test monitor.events event (values monitor.policies)
        nothing_matched result h in
    (k.same_names, k.above, k.origin)
