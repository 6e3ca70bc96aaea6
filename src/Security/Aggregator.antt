-- ===== src/Security/Aggregator.antt =====
-- packages/security/src/aggregator.ts: `deduplicate`, `findSequence` and the correlations by sandbox
-- and by attack chain. The time in ms that a timestamp denotes is a parameter.
pub mod Duplicates
pub mod Sequences
use Prim.Native.String.{◌++◌ as text_append}
use sandstorm_monorepo.Common.{
  ℕ, suc, ◌+◌, String, Bool, true, false, ◌||◌, Option, none, some, List, [], ◌∷◌, ◌++◌,
  if◌then◌else◌, ltb, leb, ◌==◌, string_eq, nat_eq, length, filter,
}
use sandstorm_monorepo.Common.Dict.{get, set}
use sandstorm_monorepo.Core.Security.{
  SecurityEvent, SecuritySeverity, high, critical, severity_eq, type_name, severity_name,
}

-- `${type}:${severity}:${sandboxId}:${message}`
pub get_event_key : SecurityEvent → String
get_event_key e = text_append (type_name e.event_type) (
    text_append ":" (
      text_append (severity_name e.severity)
        (text_append ":" (text_append e.sandbox_id (text_append ":" e.message)))))

-- The items after one that matched, or nothing where the rest of the sequence is not found.
abbrev pub prepend : SecurityEvent → Option (List SecurityEvent) → Option (List SecurityEvent)
prepend e none = none
prepend e (some es) = some (e ∷ es)

-- The loop of `findSequence`, with the part of the sequence that is still to be found: `none` is a
-- loop that ends without it. An empty sequence is never found.
unfoldable pub find_next : List SecurityEvent → List String → Option (List SecurityEvent)
find_next [] rest = none
find_next (e ∷ es) [] = none
find_next (e ∷ es) (t ∷ []) = elim (type_name e.event_type == t) [
  | true ↦ some (e ∷ [])
  | false ↦ find_next es (t ∷ [])
]
find_next (e ∷ es) (t ∷ u ∷ ts) = elim (type_name e.event_type == t) [
  | true ↦ prepend e (find_next es (u ∷ ts))
  | false ↦ find_next es (t ∷ u ∷ ts)
]

abbrev pub or_nothing : Option (List SecurityEvent) → List SecurityEvent
or_nothing none = []
or_nothing (some es) = es

unfoldable pub find_sequence : List SecurityEvent → List String → List SecurityEvent
unfolding find_next
find_sequence events sequence = or_nothing (find_next events sequence)

-- The events of each sandbox, in their order.
abbrev pub group_by_sandbox :
    List (String × List SecurityEvent) → List SecurityEvent → List (String × List SecurityEvent)
group_by_sandbox groups [] = groups
group_by_sandbox groups (e ∷ es) =
    group_by_sandbox (set e.sandbox_id (or_nothing (get e.sandbox_id groups) ++ e ∷ []) groups) es

abbrev pub is_high : SecurityEvent → Bool
is_high e = (e.severity == high) || (e.severity == critical)

-- A correlation, without its confidence.
pub record CorrelationResult : Type 0 where
  pub related_events : List SecurityEvent
  pub correlation_type : String

abbrev pub compromised : List SecurityEvent → List CorrelationResult
compromised events =
    if ltb 1 (length (filter is_high events))
    then (record {
      related_events = filter is_high events;
      correlation_type = "sandbox_compromise";
    })
      ∷ []
    else []

abbrev pub in_each :
    (List SecurityEvent → List CorrelationResult)
    → List (String × List SecurityEvent)
    → List CorrelationResult
in_each find [] = []
in_each find ((s, es) ∷ groups) = find es ++ in_each find groups

unfoldable pub correlate_by_sandbox : List SecurityEvent → List CorrelationResult
correlate_by_sandbox events = in_each compromised (group_by_sandbox [] events)

abbrev pub attack_patterns : List (String × List String)
attack_patterns =
    ("privilege_escalation_chain", "file_access" ∷ "process_spawn" ∷ "privilege_escalation" ∷ [])
    ∷ ("data_exfiltration", "file_access" ∷ "network_activity" ∷ [])
    ∷ ("lateral_movement", "network_activity" ∷ "process_spawn" ∷ "network_activity" ∷ [])
    ∷ []

module _ (get_time : String → ℕ) where
  -- `sort` by time, which is stable.
  abbrev pub insert_by_time : SecurityEvent → List SecurityEvent → List SecurityEvent
  insert_by_time e [] = e ∷ []
  insert_by_time e (f ∷ fs) =
      if leb (get_time e.timestamp) (get_time f.timestamp)
      then e ∷ f ∷ fs
      else f ∷ insert_by_time e fs

  abbrev pub sort_by_time : List SecurityEvent → List SecurityEvent
  sort_by_time [] = []
  sort_by_time (e ∷ es) = insert_by_time e (sort_by_time es)

  abbrev pub matched : String → List String → List SecurityEvent → List CorrelationResult
  matched name sequence found =
      if length found == length sequence
      then (record { related_events = found; correlation_type = name }) ∷ []
      else []

  abbrev pub chains_in : List (String × List String) → List SecurityEvent → List CorrelationResult
  chains_in [] events = []
  chains_in ((name, sequence) ∷ patterns) events =
      matched name sequence (find_sequence events sequence) ++ chains_in patterns events

  unfoldable pub correlate_attack_chains : List SecurityEvent → List CorrelationResult
  unfolding find_sequence
  correlate_attack_chains events =
      in_each (λ es. chains_in attack_patterns (sort_by_time es)) (group_by_sandbox [] events)

  -- Whether an event is kept, given the last kept one of its key.
  abbrev pub is_new : ℕ → SecurityEvent → Option SecurityEvent → Bool
  is_new window e none = true
  is_new window e (some last) = ltb (window + get_time last.timestamp) (get_time e.timestamp)

  unfoldable pub dedup_from :
      ℕ → List (String × SecurityEvent) → List SecurityEvent → List SecurityEvent
  dedup_from window seen [] = []
  dedup_from window seen (e ∷ es) = elim (is_new window e (get (get_event_key e) seen)) [
    | true ↦ e ∷ dedup_from window (set (get_event_key e) e seen) es
    | false ↦ dedup_from window seen es
  ]

  unfoldable pub deduplicate : List SecurityEvent → ℕ → List SecurityEvent
  unfolding dedup_from
  deduplicate events window = dedup_from window [] events
