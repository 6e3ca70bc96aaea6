-- ===== src/Security/Queries/Counts.antt =====
-- packages/security/src/monitor.ts: the numbers of `getMetrics`.
use sandstorm_monorepo.Common.{
  ℕ, ◌+◌, ◌*◌, ◌≤◌, String, ◌≡◌, ◌∙◌, ◌↔◌, inl, inr, List, [], ◌∷◌, ◌==◌, string_eq, length, filter,
  arith, Bool-cases,
}
use sandstorm_monorepo.Common.Dict.{get, set, get-set}
use sandstorm_monorepo.Core.Security.{SecurityEvent, high, critical, type_name}
use sandstorm_monorepo.Security.Queries.{
  count_of, count_by, has_severity, calculate_compliance_score, metrics_of,
}

count_by-filter_from :
    (key : SecurityEvent → String) (k : String) (counts : List (String × ℕ))
    (es : List SecurityEvent)
    → count_of (get k (count_by key counts es))
      ≡ count_of (get k counts) + length (filter (λ e. key e == k) es)
count_by-filter_from key k counts [] = omega arith
count_by-filter_from key k counts (e ∷ es) =
    let next = count_of (get (key e) counts) + 1 in
    let rest = count_by-filter_from key k (set (key e) next counts) es in
    elim (Bool-cases (key e == k)) [
      | inl same ↦
          let eq : key e ≡ k = (string_eq.beq_iff (key e) k).0 same in
          ground (arith, rest, get-set (key e) k next counts, same, eq)
      | inr other ↦ ground (arith, rest, get-set (key e) k next counts, other)
    ]

-- `getMetrics` counts under each type name exactly the events of that type.
pub metrics_of-events_by_type :
    (quarantined : ℕ) (events : List SecurityEvent) (name : String)
    → count_of (get name (metrics_of quarantined events).events_by_type)
      ≡ length (filter (λ e. type_name e.event_type == name) events)
unfolding metrics_of
metrics_of-events_by_type quarantined events name =
    count_by-filter_from (λ e. type_name e.event_type) name [] events ∙ omega arith

-- The compliance score is at most 100, falls short of 100 by ten for each critical event and five
-- for each high one until it is 0, and is 100 exactly when there is no event of either severity.
pub calculate_compliance_score-penalty :
    (events : List SecurityEvent)
    → let c = length (filter (has_severity critical) events) in
      let h = length (filter (has_severity high) events) in
      let score = calculate_compliance_score events in
      (score ≤ 100)
      × (100 ≤ score + (c * 10 + h * 5))
      × (c * 10 + h * 5 ≤ 100 → score + (c * 10 + h * 5) ≡ 100)
      × ((score ≡ 100) ↔ (c + h ≡ 0))
unfolding calculate_compliance_score
calculate_compliance_score-penalty [] = ground arith
calculate_compliance_score-penalty (e ∷ es) = ground arith
