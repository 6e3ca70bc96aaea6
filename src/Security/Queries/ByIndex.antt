-- ===== src/Security/Queries/ByIndex.antt =====
-- packages/security/src/monitor.ts: the index by sandbox, against a filter over all events.
use sandstorm_monorepo.Common.{
  ℕ, suc, ◌+◌, ◌≤◌, String, ◌≡◌, refl, ◌∙◌, sym, subst, ap, inl, inr, Bool, true, false, ◌&&◌, ◌||◌,
  Option, none, some, List, [], ◌∷◌, ◌++◌, if◌then◌else◌, leb, ◌==◌, string_eq, nat_eq, length,
  filter, includes, arith, Bool-cases, append_nil, filter-filter, filter-all,
}
use sandstorm_monorepo.Common.Dict.{get, get-set}
use sandstorm_monorepo.Core.Security.{SecurityEvent, type_name, severity_name}
use sandstorm_monorepo.Security.Monitor.{SecurityMonitor, or_empty, add_to_set, store_event}
use sandstorm_monorepo.Security.Queries.{
  EventFilters, at, read_all, indexed, of_sandbox, keep_named, keep_when, keep_wanted, get_events,
}

abbrev pub of_sandbox_id : String → SecurityEvent → Bool
of_sandbox_id s e = e.sandbox_id == s

-- The places at which the events of a sandbox stand, counted from k.
unfoldable pub positions : ℕ → String → List SecurityEvent → List ℕ
positions k s [] = []
positions k s (e ∷ es) =
    let rest = positions (suc k) s es in if of_sandbox_id s e then k ∷ rest else rest

-- The index of a sandbox holds the places of its events, in order.
abbrev pub IsIndexed : SecurityMonitor → Type 0
IsIndexed monitor =
    (s : String) → or_empty (get s monitor.event_index) ≡ positions 0 s monitor.events

positions-append :
    (k : ℕ) (s : String) (es : List SecurityEvent) (e : SecurityEvent)
    → positions k s (es ++ e ∷ [])
      ≡ positions k s es ++ (if of_sandbox_id s e then (k + length es) ∷ [] else [])
unfolding positions
positions-append k s [] e = ground arith
positions-append k s (x ∷ es) e = ground (arith, positions-append (suc k) s es e)

includes-positions :
    (k i : ℕ) (s : String) (es : List SecurityEvent)
    → k + length es ≤ i
    → includes i (positions k s es) ≡ false
unfolding positions
includes-positions k i s [] h = refl
includes-positions k i s (e ∷ es) h =
    ground (arith, includes-positions (suc k) i s es (omega arith))

add_to_set-positions :
    (s : String) (es : List SecurityEvent) (e : SecurityEvent) (is : List ℕ)
    → is ≡ positions 0 s es
    → of_sandbox_id s e ≡ true
    → add_to_set (length es) is ≡ positions 0 s (es ++ e ∷ [])
add_to_set-positions s es e is h same =
    ground (
      arith,
      h,
      same,
      positions-append 0 s es e,
      includes-positions 0 (length es) s es (omega arith),
    )

positions-other :
    (s : String) (es : List SecurityEvent) (e : SecurityEvent)
    → of_sandbox_id s e ≡ false
    → positions 0 s es ≡ positions 0 s (es ++ e ∷ [])
positions-other s es e other =
    sym (positions-append 0 s es e ∙ rw other (append_nil (positions 0 s es)))

pub store_event-IsIndexed :
    (event : SecurityEvent) (monitor : SecurityMonitor)
    → IsIndexed monitor
    → IsIndexed (store_event event monitor)
unfolding store_event
store_event-IsIndexed event monitor h s = elim (Bool-cases (event.sandbox_id == s)) [
  | inl same ↦
      let eq : event.sandbox_id ≡ s = (string_eq.beq_iff event.sandbox_id s).0 same in
      let old : List ℕ = or_empty (get event.sandbox_id monitor.event_index) in
      let old_is : old ≡ positions 0 s monitor.events =
        subst (λ x. or_empty (get x monitor.event_index) ≡ positions 0 s monitor.events) (sym eq)
          (h s) in
      rw (get-set event.sandbox_id s (add_to_set (length monitor.events) old) monitor.event_index)
        (rw same (add_to_set-positions s monitor.events event old old_is same))
  | inr other ↦
      rw
        (get-set event.sandbox_id s
          (add_to_set (length monitor.events) (or_empty (get event.sandbox_id monitor.event_index)))
          monitor.event_index)
        (rw other (h s ∙ positions-other s monitor.events event other))
]

read_all-positions :
    (all es : List SecurityEvent) (k : ℕ) (s : String)
    → ((j : ℕ) → at all (k + j) ≡ at es j)
    → read_all all (positions k s es) ≡ some (filter (of_sandbox_id s) es)
unfolding positions
read_all-positions all [] k s h = refl
read_all-positions all (e ∷ es) k s h =
    let shifted : (j : ℕ) → at all (suc k + j) ≡ at es j =
      λ j. subst (λ x. at all x ≡ at es j) (omega arith) (h (suc j)) in
    let rest = read_all-positions all es (suc k) s shifted in
    let here : at all k ≡ some e = subst (λ x. at all x ≡ some e) (omega arith) (h 0) in
    elim (Bool-cases (e.sandbox_id == s)) [
      | inl same ↦ rw (same, here, rest) refl
      | inr other ↦ rw other rest
    ]

-- What each filter asks of an event; a filter that is absent, or an empty text, asks nothing.
abbrev pub asks_name : Option String → String → Bool
asks_name none name = true
asks_name (some s) name = (s == "") || (name == s)

abbrev pub asks_time : Option ℕ → (ℕ → Bool) → Bool
asks_time none test = true
asks_time (some t) test = test t

keep_named-filter :
    (f : Option String) (name : SecurityEvent → String) (es : List SecurityEvent)
    → keep_named f name es ≡ filter (λ e. asks_name f (name e)) es
keep_named-filter none name es = sym (filter-all (λ e. true) es (λ _. refl))
keep_named-filter (some s) name es = elim (Bool-cases (s == "")) [
  | inl empty ↦ rw empty (sym (filter-all (λ e. true) es (λ _. refl)))
  | inr given ↦ rw given refl
]

keep_when-filter :
    (f : Option ℕ) (test : ℕ → SecurityEvent → Bool) (es : List SecurityEvent)
    → keep_when f test es ≡ filter (λ e. asks_time f (λ t. test t e)) es
keep_when-filter none test es = sym (filter-all (λ e. true) es (λ _. refl))
keep_when-filter (some t) test es = refl

of_sandbox-filter :
    (f : Option String) (monitor : SecurityMonitor)
    → IsIndexed monitor
    → of_sandbox f monitor ≡ some (filter (λ e. asks_name f e.sandbox_id) monitor.events)
unfolding of_sandbox
of_sandbox-filter none monitor h = rw (filter-all (λ e. true) monitor.events (λ _. refl)) refl
of_sandbox-filter (some s) monitor h = elim (Bool-cases (s == "")) [
  | inl empty ↦ rw empty (rw (filter-all (λ e. true) monitor.events (λ _. refl)) refl)
  | inr given ↦ rw given (go (get s monitor.event_index) (h s))
]
  where
    go :
        (found : Option (List ℕ))
        → or_empty found ≡ positions 0 s monitor.events
        → indexed found monitor.events ≡ some (filter (of_sandbox_id s) monitor.events)
    go none e =
        subst (λ is. read_all monitor.events is ≡ some (filter (of_sandbox_id s) monitor.events))
          (sym e)
          (read_all-positions monitor.events monitor.events 0 s
            (λ j. ap (at monitor.events) (omega arith)))
    go (some is) e =
        subst (λ is. read_all monitor.events is ≡ some (filter (of_sandbox_id s) monitor.events))
          (sym e)
          (read_all-positions monitor.events monitor.events 0 s
            (λ j. ap (at monitor.events) (omega arith)))

module _ (get_time : String → ℕ) where
  unfoldable pub wanted : EventFilters → SecurityEvent → Bool
  wanted filters e =
      asks_name filters.sandbox_id e.sandbox_id
      && (asks_name filters.event_type (type_name e.event_type)
          && (asks_name filters.severity (severity_name e.severity)
              && (asks_time filters.start_time (λ t. leb t (get_time e.timestamp))
                  && asks_time filters.end_time (λ t. leb (get_time e.timestamp) t))))

  keep_wanted-filter :
      (filters : EventFilters) (es : List SecurityEvent)
      → keep_wanted get_time filters (filter (λ e. asks_name filters.sandbox_id e.sandbox_id) es)
        ≡ filter (wanted filters) es
  unfolding keep_wanted wanted
  keep_wanted-filter filters es =
      let p0 = λ (e : SecurityEvent). asks_name filters.sandbox_id e.sandbox_id in
      let p1 = λ (e : SecurityEvent). asks_name filters.event_type (type_name e.event_type) in
      let p2 = λ (e : SecurityEvent). asks_name filters.severity (severity_name e.severity) in
      let p3 =
        λ (e : SecurityEvent). asks_time filters.start_time (λ t. leb t (get_time e.timestamp)) in
      let p4 =
        λ (e : SecurityEvent). asks_time filters.end_time (λ t. leb (get_time e.timestamp) t) in
      keep_when-filter filters.end_time _ _
      ∙ ap (filter p4) (keep_when-filter filters.start_time _ _)
      ∙ ap (λ x. filter p4 (filter p3 x)) (keep_named-filter filters.severity _ _)
      ∙ ap (λ x. filter p4 (filter p3 (filter p2 x))) (keep_named-filter filters.event_type _ _)
      ∙ filter-filter p4 p3 (filter p2 (filter p1 (filter p0 es)))
      ∙ filter-filter _ p2 (filter p1 (filter p0 es))
      ∙ filter-filter _ p1 (filter p0 es)
      ∙ filter-filter _ p0 es

  -- In a monitor with a right index, `getEvents` is one filter over all events, in their order.
  pub get_events-IsIndexed :
      (filters : EventFilters) (monitor : SecurityMonitor)
      → IsIndexed monitor
      → get_events get_time filters monitor ≡ some (filter (wanted filters) monitor.events)
  unfolding get_events keep_wanted wanted
  get_events-IsIndexed filters monitor h =
      rw (of_sandbox-filter filters.sandbox_id monitor h, get_events)
        (ap some (keep_wanted-filter filters monitor.events))
