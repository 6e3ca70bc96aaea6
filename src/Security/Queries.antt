-- ===== src/Security/Queries.antt =====
-- packages/security/src/monitor.ts: `getEvents`, `getMetrics` and the compliance score. The time in
-- ms that a timestamp denotes is a parameter.
pub mod ByIndex
pub mod Counts
use sandstorm_monorepo.Common.{
  ℕ, zero, suc, ◌+◌, ◌-◌, ◌*◌, min, String, Bool, true, false, ◌&&◌, not, Option, none, some, List,
  [], ◌∷◌, ◌++◌, map, if◌then◌else◌, ltb, leb, ◌==◌, string_eq, nat_eq, length, filter, any,
  includes,
}
use sandstorm_monorepo.Common.Dict.{get, set, delete, values}
use sandstorm_monorepo.Common.Result.{Result, ok, throw, ◌>>=◌}
use sandstorm_monorepo.Core.Security.{
  SecurityEventType, SecuritySeverity, low, medium, high, critical, SecurityEvent, PolicyAction,
  allow, deny, alert, RuleCondition, SecurityRule, SecurityPolicy, QuarantineRecord, event_type_eq,
  severity_eq, type_name, severity_name,
}
use sandstorm_monorepo.Security.Monitor.{SecurityMonitor, or_empty}

pub record EventFilters : Type 0 where
  pub sandbox_id : Option String
  pub event_type : Option String
  pub severity : Option String
  pub start_time : Option ℕ
  pub end_time : Option ℕ

-- `events[i]`, and all of them: `none` stands for a result that contains `undefined`.
abbrev pub at {ℓ} : {B : Type ℓ} → List B → ℕ → Option B
at [] i = none
at (x ∷ xs) zero = some x
at (x ∷ xs) (suc i) = at xs i

abbrev pub both {ℓ} : {B : Type ℓ} → Option B → Option (List B) → Option (List B)
both none _ = none
both (some x) none = none
both (some x) (some xs) = some (x ∷ xs)

abbrev pub read_all {ℓ} : {B : Type ℓ} → List B → List ℕ → Option (List B)
read_all xs [] = some []
read_all xs (i ∷ is) = both (at xs i) (read_all xs is)

abbrev pub indexed : Option (List ℕ) → List SecurityEvent → Option (List SecurityEvent)
indexed none events = some []
indexed (some is) events = read_all events is

-- The events that the filter by sandbox starts from; an empty id is no filter.
unfoldable pub of_sandbox : Option String → SecurityMonitor → Option (List SecurityEvent)
of_sandbox none monitor = some monitor.events
of_sandbox (some s) monitor =
    if s == "" then some monitor.events else indexed (get s monitor.event_index) monitor.events

-- `if (f) list = list.filter(e => name(e) === f)`, where an empty text is no filter.
abbrev pub keep_named :
    Option String → (SecurityEvent → String) → List SecurityEvent → List SecurityEvent
keep_named none name events = events
keep_named (some s) name events = if s == "" then events else filter (λ e. name e == s) events

abbrev pub keep_when :
    Option ℕ → (ℕ → SecurityEvent → Bool) → List SecurityEvent → List SecurityEvent
keep_when none test events = events
keep_when (some t) test events = filter (test t) events

abbrev pub count_of : Option ℕ → ℕ
count_of none = 0
count_of (some k) = k

-- `counts[key] = (counts[key] || 0) + 1` over all events.
abbrev pub count_by :
    (SecurityEvent → String) → List (String × ℕ) → List SecurityEvent → List (String × ℕ)
count_by key counts [] = counts
count_by key counts (e ∷ es) =
    count_by key (set (key e) (count_of (get (key e) counts) + 1) counts) es

abbrev pub has_severity : SecuritySeverity → SecurityEvent → Bool
has_severity s e = e.severity == s

-- `Math.max(0, Math.min(100, score))`: subtraction on ℕ stops at 0, which is the outer bound.
unfoldable pub calculate_compliance_score : List SecurityEvent → ℕ
calculate_compliance_score [] = 100
calculate_compliance_score events =
    let critical_events = length (filter (has_severity critical) events) in
    let high_events = length (filter (has_severity high) events) in
    min 100 (100 - critical_events * 10 - high_events * 5)

pub record SecurityMetrics : Type 0 where
  pub total_events : ℕ
  pub events_by_type : List (String × ℕ)
  pub events_by_severity : List (String × ℕ)
  pub quarantined_sandboxes : ℕ
  pub policy_violations : ℕ
  pub compliance_score : ℕ
  pub avg_response_time : ℕ

-- The test that `getMetrics` filters by is an async function: it returns a promise, which is truthy
-- whatever the evaluation says.
abbrev pub is_promise : SecurityEvent → Bool
is_promise e = true

unfoldable pub metrics_of : ℕ → List SecurityEvent → SecurityMetrics
unfolding calculate_compliance_score
metrics_of quarantined events = record {
  total_events = length events;
  events_by_type = count_by (λ e. type_name e.event_type) [] events;
  events_by_severity = count_by (λ e. severity_name e.severity) [] events;
  quarantined_sandboxes = quarantined;
  policy_violations = length (filter is_promise events);
  compliance_score = calculate_compliance_score events;
  avg_response_time = 150;
}

abbrev pub range_filters : ℕ × ℕ → EventFilters
range_filters (start, end_) = record {
  sandbox_id = none;
  event_type = none;
  severity = none;
  start_time = some start;
  end_time = some end_;
}

module _ (get_time : String → ℕ) where
  -- The filters after the one by sandbox.
  unfoldable pub keep_wanted : EventFilters → List SecurityEvent → List SecurityEvent
  keep_wanted filters events =
      keep_when filters.end_time (λ t e. leb (get_time e.timestamp) t)
        (keep_when filters.start_time (λ t e. leb t (get_time e.timestamp))
          (keep_named filters.severity (λ e. severity_name e.severity)
            (keep_named filters.event_type (λ e. type_name e.event_type) events)))

  unfoldable pub get_events : EventFilters → SecurityMonitor → Option (List SecurityEvent)
  unfolding of_sandbox keep_wanted
  get_events filters monitor = elim (of_sandbox filters.sandbox_id monitor) [
    | none ↦ none
    | some events ↦ some (keep_wanted filters events)
  ]

  abbrev pub events_in : Option (ℕ × ℕ) → SecurityMonitor → Option (List SecurityEvent)
  events_in none monitor = some monitor.events
  events_in (some range) monitor = get_events (range_filters range) monitor

  unfoldable pub get_metrics : Option (ℕ × ℕ) → SecurityMonitor → Option SecurityMetrics
  unfolding get_events metrics_of
  get_metrics range monitor = elim (events_in range monitor) [
    | none ↦ none
    | some events ↦ some (metrics_of (length monitor.quarantines) events)
  ]
