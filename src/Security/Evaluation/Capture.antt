-- ===== src/Security/Evaluation/Capture.antt =====
-- packages/security/src/monitor.ts: `captureEvent`, and the monitors that its calls can lead to.
use sandstorm_monorepo.Common.{
  ℕ, String, ◌≡◌, ◌≢◌, refl, Bool, true, Option, none, some, List, [], ◌∷◌, ◌++◌, filter, string_eq,
}
use sandstorm_monorepo.Common.Dict.{get}
use sandstorm_monorepo.Common.Result.{Result, ok, throw}
use sandstorm_monorepo.Core.Security.{
  SecurityEvent, PolicyAction, allow, deny, alert, SecurityPolicy, QuarantineRecord,
}
use sandstorm_monorepo.Security.Monitor.{
  SecurityMonitor, Stamp, store_event, quarantine, release, release_found, apply_policy,
  remove_policy, is_quarantined,
}
use sandstorm_monorepo.Security.Monitor.Quarantine.{is_quarantined-quarantine}
use sandstorm_monorepo.Security.Queries.{EventFilters, get_events}
use sandstorm_monorepo.Security.Queries.ByIndex.{
  IsIndexed, positions, store_event-IsIndexed, wanted, get_events-IsIndexed,
}
use sandstorm_monorepo.Security.Evaluation.{Evaluation, evaluate_event, act_on, capture_event}

module _ (get_time : String → ℕ) (pattern_test : String → SecurityEvent → Result Bool) where
  -- The monitors that the public methods lead to, from an empty one.
  pub data Reach : SecurityMonitor → Type 0 where
    start : Reach (record { events = []; policies = []; quarantines = []; event_index = [] })
    capture :
        {m : SecurityMonitor} (stamp : Stamp) (reason : List String → String)
        (event : SecurityEvent)
        → Reach m
        → Reach (capture_event get_time pattern_test stamp reason event m).0
    apply :
        {m : SecurityMonitor} (policy : SecurityPolicy) → Reach m → Reach (apply_policy policy m)
    remove : {m : SecurityMonitor} (id : String) → Reach m → Reach (remove_policy id m)
    hold :
        {m : SecurityMonitor} (stamp : Stamp) (sandbox_id reason : String) (event : SecurityEvent)
        → Reach m
        → Reach (quarantine stamp sandbox_id reason event m).0
    free : {m : SecurityMonitor} (now id : String) → Reach m → Reach (release now id m).0

  act_on-IsIndexed :
      (stamp : Stamp) (reason : List String → String) (event : SecurityEvent)
      (evaluation : Result Evaluation) (m : SecurityMonitor)
      → IsIndexed m
      → IsIndexed (act_on get_time pattern_test stamp reason event evaluation m).0
  unfolding act_on quarantine
  act_on-IsIndexed stamp reason event (throw e) m h = h
  act_on-IsIndexed stamp reason event (ok evaluation) m h = go evaluation.action
    where
      go :
          (a : PolicyAction)
          → IsIndexed
              (act_on get_time pattern_test stamp reason event
                (ok (record evaluation { action = a }))
                m).0
      go allow = h
      go deny = h
      go alert = h
      go PolicyAction.quarantine = h

  free-IsIndexed :
      (now id : String) (m : SecurityMonitor) → IsIndexed m → IsIndexed (release now id m).0
  unfolding release
  free-IsIndexed now id m h = go (get id m.quarantines)
    where
      go : (found : Option QuarantineRecord) → IsIndexed (release_found now id found m).0
      go none = h
      go (some r) = h

  Reach-IsIndexed : (m : SecurityMonitor) → Reach m → IsIndexed m
  unfolding capture_event quarantine positions
  Reach-IsIndexed _ start = λ s. refl
  Reach-IsIndexed _ (capture {m} stamp reason event r) =
      act_on-IsIndexed stamp reason event _ _ (store_event-IsIndexed event m (Reach-IsIndexed m r))
  Reach-IsIndexed _ (apply {m} policy r) = Reach-IsIndexed m r
  Reach-IsIndexed _ (remove {m} id r) = Reach-IsIndexed m r
  Reach-IsIndexed _ (hold {m} stamp sandbox_id reason event r) = Reach-IsIndexed m r
  Reach-IsIndexed _ (free {m} now id r) = free-IsIndexed now id m (Reach-IsIndexed m r)

  -- In every monitor that the methods lead to, `getEvents` returns exactly the captured events that
  -- pass all given filters, in the order of their capture, though it finds those of a sandbox by the
  -- index.
  pub get_events-Reach :
      (filters : EventFilters) (m : SecurityMonitor)
      → Reach m
      → get_events get_time filters m ≡ some (filter (wanted get_time filters) m.events)
  get_events-Reach filters m r = get_events-IsIndexed get_time filters m (Reach-IsIndexed m r)

  act_on-Outcome :
      (stamp : Stamp) (reason : List String → String) (event : SecurityEvent)
      (evaluation : Result Evaluation) (m : SecurityMonitor)
      → let after = (act_on get_time pattern_test stamp reason event evaluation m).0 in
        (after.events ≡ m.events)
        × ((e : Evaluation)
            → evaluation ≡ ok e
            → e.action ≡ PolicyAction.quarantine
            → is_quarantined event.sandbox_id after ≡ true)
        × (((e : Evaluation) → evaluation ≡ ok e → e.action ≢ PolicyAction.quarantine)
            → after.quarantines ≡ m.quarantines)
  unfolding act_on
  act_on-Outcome stamp reason event (throw t) m = (refl, λ e h q. absurd (cc), λ no. refl)
  act_on-Outcome stamp reason event (ok evaluation) m = go evaluation.action refl
    where
      go :
          (a : PolicyAction)
          → evaluation.action ≡ a
          → let after =
              (act_on get_time pattern_test stamp reason event
                (ok (record evaluation { action = a }))
                m).0 in
            (after.events ≡ m.events)
            × ((e : Evaluation)
                → ok evaluation ≡ ok e
                → e.action ≡ PolicyAction.quarantine
                → is_quarantined event.sandbox_id after ≡ true)
            × (((e : Evaluation) → ok evaluation ≡ ok e → e.action ≢ PolicyAction.quarantine)
                → after.quarantines ≡ m.quarantines)
      go allow is = (refl, λ e h q. absurd (cc), λ no. refl)
      go deny is = (refl, λ e h q. absurd (cc), λ no. refl)
      go alert is = (refl, λ e h q. absurd (cc), λ no. refl)
      go PolicyAction.quarantine is = (
        refl,
        λ e h q.
            is_quarantined-quarantine stamp event.sandbox_id (reason evaluation.matched_rules) event
              m,
        λ no. absurd (no evaluation refl is),
      )

  -- `captureEvent` stores the event last, even where the evaluation throws. Where the policies,
  -- evaluated on the monitor that holds the event, say `quarantine`, the sandbox is quarantined
  -- afterwards; in every other case the quarantine records stay as they were.
  pub capture_event-Outcome :
      (stamp : Stamp) (reason : List String → String) (event : SecurityEvent) (m : SecurityMonitor)
      → let after = (capture_event get_time pattern_test stamp reason event m).0 in
        let evaluation = evaluate_event get_time pattern_test event (store_event event m) in
        (after.events ≡ m.events ++ event ∷ [])
        × ((e : Evaluation)
            → evaluation ≡ ok e
            → e.action ≡ PolicyAction.quarantine
            → is_quarantined event.sandbox_id after ≡ true)
        × (((e : Evaluation) → evaluation ≡ ok e → e.action ≢ PolicyAction.quarantine)
            → after.quarantines ≡ m.quarantines)
  unfolding capture_event store_event
  capture_event-Outcome stamp reason event m =
      act_on-Outcome stamp reason event _ (store_event event m)
