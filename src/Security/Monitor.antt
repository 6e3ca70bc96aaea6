-- ===== src/Security/Monitor.antt =====
-- packages/security/src/monitor.ts: the state of `SecurityMonitor`, and the operations that store
-- events, policies and quarantine records. Ids and times of records are arguments; log lines are
-- left out.
pub mod Quarantine
use sandstorm_monorepo.Common.{
  ℕ, zero, suc, ◌+◌, ◌-◌, ◌*◌, min, String, Bool, true, false, ◌&&◌, not, Option, none, some, List,
  [], ◌∷◌, ◌++◌, map, if◌then◌else◌, ltb, leb, ◌==◌, string_eq, nat_eq, length, filter, any,
  includes,
}
use sandstorm_monorepo.Common.Dict.{get, set, delete, values}
use sandstorm_monorepo.Common.Result.{Result, ok, throw, ◌>>=◌}
use sandstorm_monorepo.Core.Security.{
  SecurityEventType, SecuritySeverity, low, medium, high, critical, SecurityEvent, PolicyAction,
  allow, deny, alert, RuleCondition, SecurityRule, SecurityPolicy, QuarantineRecord, event_type_eq,
  severity_eq, type_name, severity_name,
}

pub record SecurityMonitor : Type 0 where
  pub events : List SecurityEvent
  pub policies : List (String × SecurityPolicy)
  pub quarantines : List (String × QuarantineRecord)
  pub event_index : List (String × List ℕ)

-- What the monitor emits.
pub data Emitted : Type 0 where
  alerted : SecurityEvent → List String → Emitted
  quarantined released : QuarantineRecord → Emitted
  captured : SecurityEvent → Emitted

-- The time of a call, and the id that it draws.
pub record Stamp : Type 0 where
  pub id : String
  pub now : String

-- `Set.add` on a set in the order of insertion, and the set of a key, `new Set()` by default.
abbrev pub add_to_set : ℕ → List ℕ → List ℕ
add_to_set i is = if includes i is then is else is ++ i ∷ []

abbrev pub or_empty {ℓ} : {B : Type ℓ} → Option (List B) → List B
or_empty none = []
or_empty (some is) = is

-- The first two steps of `captureEvent`: the event is stored and indexed.
unfoldable pub store_event : SecurityEvent → SecurityMonitor → SecurityMonitor
store_event event monitor =
    let index = length monitor.events in
    let sandbox_events = add_to_set index (or_empty (get event.sandbox_id monitor.event_index)) in
    record monitor {
      events = monitor.events ++ event ∷ [];
      event_index = set event.sandbox_id sandbox_events monitor.event_index;
    }

abbrev pub apply_policy : SecurityPolicy → SecurityMonitor → SecurityMonitor
apply_policy policy monitor = record monitor { policies = set policy.id policy monitor.policies }

abbrev pub remove_policy : String → SecurityMonitor → SecurityMonitor
remove_policy id monitor = record monitor { policies = delete id monitor.policies }

unfoldable pub quarantine :
    Stamp → String → String → SecurityEvent → SecurityMonitor → SecurityMonitor × QuarantineRecord
quarantine stamp sandbox_id reason event monitor =
    let r : QuarantineRecord = record {
      id = stamp.id;
      sandbox_id = sandbox_id;
      reason = reason;
      triggered_by = event;
      start_time = stamp.now;
      end_time = none;
      auto_release = false;
      release_conditions = none;
    } in
    (record monitor { quarantines = set r.id r monitor.quarantines }, r)

-- `release` once the record is looked up; it emits the record with its end.
abbrev pub release_found :
    String
    → String
    → Option QuarantineRecord
    → SecurityMonitor
    → SecurityMonitor × Result (List Emitted)
release_found now id none monitor = (monitor, throw "Quarantine record not found")
release_found now id (some r) monitor = (
  record monitor { quarantines = delete id monitor.quarantines },
  ok (released (record r { end_time = some now }) ∷ []),
)

unfoldable pub release : String → String → SecurityMonitor → SecurityMonitor × Result (List Emitted)
release now id monitor = release_found now id (get id monitor.quarantines) monitor

-- `!record.endTime`
abbrev pub is_open : Option String → Bool
is_open none = true
is_open (some t) = t == ""

unfoldable pub is_quarantined : String → SecurityMonitor → Bool
is_quarantined sandbox_id monitor =
    any (λ (r : QuarantineRecord). r.sandbox_id == sandbox_id && is_open r.end_time)
      (values monitor.quarantines)
