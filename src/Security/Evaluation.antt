-- ===== src/Security/Evaluation.antt =====
-- packages/security/src/monitor.ts: `evaluateEvent`, `matchesRule` and `captureEvent`. The time in ms
-- that a timestamp denotes and the test of a pattern on an event, which may throw as `new RegExp`
-- does, are parameters.
pub mod Strictest
pub mod Capture
use sandstorm_monorepo.Common.{
  ℕ, zero, suc, ◌+◌, ◌-◌, ◌*◌, min, String, Bool, true, false, ◌&&◌, not, Option, none, some, List,
  [], ◌∷◌, ◌++◌, map, if◌then◌else◌, ltb, leb, ◌==◌, string_eq, nat_eq, length, filter, any,
  includes,
}
use sandstorm_monorepo.Common.Dict.{get, set, delete, values}
use sandstorm_monorepo.Common.Result.{Result, ok, throw, ◌>>=◌}
use sandstorm_monorepo.Core.Security.{
  SecurityEventType, SecuritySeverity, low, medium, high, critical, SecurityEvent, PolicyAction,
  allow, deny, alert, RuleCondition, SecurityRule, SecurityPolicy, QuarantineRecord, event_type_eq,
  severity_eq, type_name, severity_name,
}
use sandstorm_monorepo.Security.Monitor.{
  SecurityMonitor, Stamp, Emitted, alerted, quarantined, captured, store_event, quarantine,
}

pub record Evaluation : Type 0 where
  pub action : PolicyAction
  pub matched_rules : List String

abbrev pub restrictiveness : PolicyAction → ℕ
restrictiveness allow = 0
restrictiveness alert = 1
restrictiveness deny = 2
restrictiveness PolicyAction.quarantine = 3

abbrev pub is_more_restrictive : PolicyAction → PolicyAction → Bool
is_more_restrictive a b = ltb (restrictiveness b) (restrictiveness a)

abbrev pub severity_level : SecuritySeverity → ℕ
severity_level low = 1
severity_level medium = 2
severity_level high = 3
severity_level critical = 4

abbrev pub is_severity_match : SecuritySeverity → SecuritySeverity → Bool
is_severity_match event rule = leb (severity_level rule) (severity_level event)

-- The checks of `matchesRule` on the type and the severity; each says whether the rule still
-- matches.
abbrev pub type_ok : Option SecurityEventType → SecurityEvent → Bool
type_ok none e = true
type_ok (some t) e = e.event_type == t

abbrev pub severity_ok : Option SecuritySeverity → SecurityEvent → Bool
severity_ok none e = true
severity_ok (some s) e = is_severity_match e.severity s

-- The rule is recorded, and its action taken over if it is more restrictive.
abbrev pub record_match : SecurityRule → Evaluation → Evaluation
record_match rule e = record {
  action = if is_more_restrictive rule.action e.action then rule.action else e.action;
  matched_rules = e.matched_rules ++ rule.name ∷ [];
}

abbrev pub record_if : Bool → SecurityRule → Evaluation → Evaluation
record_if b rule e = if b then record_match rule e else e

abbrev pub enabled_rules : SecurityPolicy → List SecurityRule
enabled_rules policy = if policy.enabled then policy.rules else []

abbrev pub nothing_matched : Evaluation
nothing_matched = record { action = allow; matched_rules = [] }

module _ (get_time : String → ℕ) where
  -- The start of the window may lie before 0, so the window is added on the other side.
  unfoldable pub count_similar_events : SecurityEvent → ℕ → List SecurityEvent → ℕ
  count_similar_events event time_window events = length (
      filter
        (λ (e : SecurityEvent).
          e.event_type == event.event_type
          && (e.sandbox_id == event.sandbox_id
              && leb (get_time event.timestamp) (get_time e.timestamp + time_window)))
        events)

  abbrev pub threshold_ok : Option ℕ → Option ℕ → SecurityEvent → List SecurityEvent → Bool
  threshold_ok none _ event events = true
  threshold_ok (some k) none event events = true
  threshold_ok (some zero) (some w) event events = true
  threshold_ok (some (suc k)) (some zero) event events = true
  threshold_ok (some (suc k)) (some (suc w)) event events =
      leb (suc k) (count_similar_events event (suc w) events)

  module _ (pattern_test : String → SecurityEvent → Result Bool) where
    abbrev pub pattern_ok : Option String → SecurityEvent → Result Bool
    pattern_ok none e = ok true
    pattern_ok (some p) e = if p == "" then ok true else pattern_test p e

    pub matches_rule : List SecurityEvent → SecurityEvent → SecurityRule → Result Bool
    matches_rule events event rule =
        let condition = rule.condition in
        if not (type_ok condition.event_type event)
        then ok false
        else if not (severity_ok condition.severity event)
        then ok false
        else pattern_ok condition.pattern event >>= λ found.
            ok (found && threshold_ok condition.threshold condition.time_window event events)

    -- The inner loop, over the rules of one policy, and the outer one.
    unfoldable pub evaluate_rules :
        List SecurityEvent → SecurityEvent → List SecurityRule → Evaluation → Result Evaluation
    unfolding matches_rule
    evaluate_rules events event [] e = ok e
    evaluate_rules events event (r ∷ rs) e =
        matches_rule events event r >>= λ b. evaluate_rules events event rs (record_if b r e)

    unfoldable pub evaluate_policies :
        List SecurityEvent → SecurityEvent → List SecurityPolicy → Evaluation → Result Evaluation
    unfolding evaluate_rules
    evaluate_policies events event [] e = ok e
    evaluate_policies events event (p ∷ ps) e =
        evaluate_rules events event (enabled_rules p) e >>= λ after.
        evaluate_policies events event ps after

    unfoldable pub evaluate_event : SecurityEvent → SecurityMonitor → Result Evaluation
    unfolding evaluate_policies
    evaluate_event event monitor =
        evaluate_policies monitor.events event (values monitor.policies) nothing_matched

    -- What `captureEvent` does once the event is stored and evaluated; `reason` is the text that it
    -- makes of the names of the matched rules.
    unfoldable pub act_on :
        Stamp
        → (List String → String)
        → SecurityEvent
        → Result Evaluation
        → SecurityMonitor
        → SecurityMonitor × Result (List Emitted)
    unfolding quarantine
    act_on stamp reason event (throw e) monitor = (monitor, throw e)
    act_on stamp reason event (ok evaluation) monitor = elim evaluation.action [
      | PolicyAction.quarantine ↦
          let (after, r) =
            quarantine stamp event.sandbox_id (reason evaluation.matched_rules) event monitor in
          (after, ok (quarantined r ∷ captured event ∷ []))
      | alert ↦ (monitor, ok (alerted event evaluation.matched_rules ∷ captured event ∷ []))
      | _ ↦ (monitor, ok (captured event ∷ []))
    ]

    unfoldable pub capture_event :
        Stamp
        → (List String → String)
        → SecurityEvent
        → SecurityMonitor
        → SecurityMonitor × Result (List Emitted)
    unfolding store_event evaluate_event act_on
    capture_event stamp reason event monitor =
        let stored = store_event event monitor in
        act_on stamp reason event (evaluate_event event stored) stored
