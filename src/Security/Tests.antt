-- ===== src/Security/Tests.antt =====
-- The security parts at concrete inputs: every timestamp denotes 0, and every pattern is found.
use sandstorm_monorepo.Common.{
  length, ◌<◌, ℕ, ◌≤◌, String, ◌≡◌, ◌≢◌, refl, ◌⊎◌, Bool, true, false, none, some, List, [], ◌∷◌,
  filter, Memᴰ, string_eq,
}
use sandstorm_monorepo.Common.Dict.{values}
use sandstorm_monorepo.Common.Result.{Result, ok}
use sandstorm_monorepo.Core.Provider.{edge}
use sandstorm_monorepo.Core.Security.{
  SecurityEvent, SecurityRule, SecurityPolicy, PolicyAction, allow, alert, network_activity, high,
  critical, shield,
}
use sandstorm_monorepo.Security.Monitor.{
  SecurityMonitor, Stamp, apply_policy, store_event, is_quarantined,
}
use sandstorm_monorepo.Security.Queries.{EventFilters, get_events}
use sandstorm_monorepo.Security.Queries.ByIndex.{wanted}
use sandstorm_monorepo.Security.Evaluation.{
  Evaluation, count_similar_events, restrictiveness, evaluate_event, capture_event,
}
use sandstorm_monorepo.Security.Evaluation.Strictest.{
  names, all_rules, is_match, evaluate_event-strictest,
}
use sandstorm_monorepo.Security.Evaluation.Capture.{
  Reach, start, capture, apply, get_events-Reach, capture_event-Outcome,
}
use sandstorm_monorepo.Common.Sublists.{Sublist}
use sandstorm_monorepo.Security.Aggregator.{deduplicate, find_sequence}
use sandstorm_monorepo.Security.Aggregator.Duplicates.{Spaced, StandsFor, deduplicate-Spaced}
use sandstorm_monorepo.Security.Aggregator.Sequences.{Found, types_of, find_sequence-Found}
use sandstorm_monorepo.Security.Dashboard.{create_alert, acknowledge_alert}
use sandstorm_monorepo.Security.Dashboard.Alerts.{
  ids, create, acknowledge, Reach-ids, start as no_alerts,
}
use sandstorm_monorepo.Security.Siem.{SiemConfig, SiemIntegration, initialize}
use sandstorm_monorepo.Security.Siem.Lost.{new_siem, send_each, send_each-loses}
use sandstorm_monorepo.Security.Siem.Interleaving.{
  World, accept, start_flush, end_flush, done, next, accept_event, begin_flush, finish, Steps,
  Conserved, Steps-Conserved,
}

abbrev time : String → ℕ
time s = 0

abbrev test : String → SecurityEvent → Result Bool
test p e = ok true

abbrev event : SecurityEvent
event = record {
  id = "e1";
  event_type = network_activity;
  severity = critical;
  timestamp = "";
  sandbox_id = "s1";
  provider = edge;
  message = "m";
  details = [];
  metadata = none;
  falco_rule = none;
  ebpf_trace = none;
}

abbrev rule : String → PolicyAction → SecurityRule
rule name action = record {
  id = name;
  name = name;
  description = "";
  condition = record {
    event_type = some network_activity;
    severity = some high;
    pattern = some "curl";
    threshold = some 1;
    time_window = some 60;
  };
  action = action;
  notifications = none;
}

abbrev policy : SecurityPolicy
policy = record {
  id = "p1";
  name = "p";
  description = "";
  enabled = true;
  rules = rule "watch" alert ∷ rule "lock" PolicyAction.quarantine ∷ [];
  tier = shield;
  created_at = "";
  updated_at = "";
}

abbrev empty : SecurityMonitor
empty = record { events = []; policies = []; quarantines = []; event_index = [] }

abbrev guarded : SecurityMonitor
guarded = apply_policy policy empty

abbrev stamp : Stamp
stamp = record { id = "q1"; now = "t" }

abbrev reason : List String → String
reason names = "Policy violation"

abbrev verdict : Evaluation
verdict = record { action = PolicyAction.quarantine; matched_rules = "watch" ∷ "lock" ∷ [] }

abbrev stored : SecurityMonitor
unfolding store_event
stored = store_event event guarded

the_verdict : evaluate_event time test event stored ≡ ok verdict
unfolding evaluate_event store_event count_similar_events
the_verdict = refl

evaluate_event-strictest_example :
    let rules =
      filter (is_match time test stored.events event) (all_rules (values stored.policies)) in
    (verdict.matched_rules ≡ names rules)
    × ((r : SecurityRule)
        → Memᴰ r rules
        → restrictiveness r.action ≤ restrictiveness verdict.action)
    × ((verdict.action ≡ allow) ⊎ ((r : SecurityRule) × Memᴰ r rules × (r.action ≡ verdict.action)))
evaluate_event-strictest_example =
    evaluate_event-strictest time test event stored verdict the_verdict

abbrev captured_once : SecurityMonitor
unfolding capture_event
captured_once = (capture_event time test stamp reason event guarded).0

captured_is_reached : Reach time test captured_once
unfolding capture_event
captured_is_reached = capture stamp reason event (apply policy start)

abbrev in_sandbox : EventFilters
in_sandbox = record {
  sandbox_id = some "s1";
  event_type = none;
  severity = some "critical";
  start_time = none;
  end_time = some 5;
}

get_events-Reach_example :
    get_events time in_sandbox captured_once
    ≡ some (filter (wanted time in_sandbox) captured_once.events)
unfolding capture_event
get_events-Reach_example = get_events-Reach time test in_sandbox captured_once captured_is_reached

capture_event-Outcome_example :
    let after = (capture_event time test stamp reason event guarded).0 in
    let evaluation = evaluate_event time test event (store_event event guarded) in
    (after.events ≡ event ∷ [])
    × ((e : Evaluation)
        → evaluation ≡ ok e
        → e.action ≡ PolicyAction.quarantine
        → is_quarantined "s1" after ≡ true)
    × (((e : Evaluation) → evaluation ≡ ok e → e.action ≢ PolicyAction.quarantine)
        → after.quarantines ≡ [])
capture_event-Outcome_example = capture_event-Outcome time test stamp reason event guarded

abbrev config : SiemConfig
config = record {
  enabled = true;
  webhook = some "https://siem";
  api_key = none;
  batch_size = some 1;
  flush_interval = none;
}

abbrev siem : Bool → List SecurityEvent → SiemIntegration
siem client queue = record {
  config = some config;
  has_client = client;
  event_queue = queue;
  has_timer = client;
}

abbrev no_webhook : SiemConfig
no_webhook = record config { webhook = none }

send_each-loses_example :
    let (after, arrived) =
      send_each ((true, event) ∷ (true, event) ∷ []) (initialize (some no_webhook) new_siem) in
    (arrived ≡ []) × (length after.event_queue < 1)
send_each-loses_example = send_each-loses no_webhook refl ((true, event) ∷ (true, event) ∷ []) refl

abbrev world : World
world = record { siem = siem true []; in_flight = []; arrived = []; accepted = [] }

abbrev waiting : World
waiting = begin_flush (accept_event event world)

abbrev failed : World
failed = finish false (event ∷ []) [] waiting

a_failed_flush : Steps world failed
unfolding begin_flush
a_failed_flush = next (accept {w = world} event refl) (
    next (start_flush {w = accept_event event world} refl (λ e. cc))
      (next (end_flush {w = waiting} false [] [] (event ∷ []) refl) done))

Steps-Conserved_example : Conserved (λ e. true) failed
Steps-Conserved_example = Steps-Conserved (λ e. true) world failed a_failed_flush refl

deduplicate-Spaced_example :
    let kept = deduplicate time (event ∷ event ∷ []) 60 in
    Sublist kept (event ∷ event ∷ [])
    × Spaced time 60 kept
    × ((e : SecurityEvent)
        → Memᴰ e (event ∷ event ∷ [])
        → (d : SecurityEvent) × Memᴰ d kept × StandsFor time 60 e d)
deduplicate-Spaced_example = deduplicate-Spaced time (event ∷ event ∷ []) 60

find_sequence-Found_example :
    let found = find_sequence (event ∷ []) ("network_activity" ∷ []) in
    (Found (event ∷ []) ("network_activity" ∷ []) found ⊎ (found ≡ []))
    × (found ≡ []
        → (ys : List SecurityEvent) → Sublist ys (event ∷ [])
        → types_of ys ≢ "network_activity" ∷ [])
find_sequence-Found_example = find_sequence-Found (event ∷ []) "network_activity" []

Reach-ids_example : ids (acknowledge_alert "a1" (create_alert "a1" "" "high" "m" [])) ≡ "a1" ∷ []
Reach-ids_example =
    Reach-ids ("a1" ∷ []) (acknowledge_alert "a1" (create_alert "a1" "" "high" "m" []))
      (acknowledge "a1" (create {drawn = []} {es = []} "a1" "" "high" "m" no_alerts))
