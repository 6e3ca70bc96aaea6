-- ===== src/EdgeAgent/Tests.antt =====
-- The edge agent's parts at concrete inputs.
use sandstorm_monorepo.Common.{
  ℕ, ◌+◌, ◌<◌, ◌≡◌, refl, Bool, true, false, some, List, [], ◌∷◌, length, ◌==◌, nat_eq, arith,
}
use sandstorm_monorepo.Common.Sublists.{Sublist}
use sandstorm_monorepo.EdgeAgent.Run.{no_runs, admitted, rejected, begin_run}
use sandstorm_monorepo.EdgeAgent.Run.Balance.{
  World, begin, finish, start, call, answer, Balanced, Reach-Balanced, begin-overadmits,
}
use sandstorm_monorepo.EdgeAgent.Relay.{new_relay, no_items, send, begin_flush, answer as settle}
use sandstorm_monorepo.EdgeAgent.Relay.Events.{
  Event, status_sent, logs_sent, interval_passed, status_answered, logs_answered, after,
  BufferEvent, sent, flushed, answered, buffer_after,
}
use sandstorm_monorepo.EdgeAgent.Relay.Bounds.{send_status-Bounded}
use sandstorm_monorepo.EdgeAgent.Relay.Conserved.{total, after-conserved}
use sandstorm_monorepo.EdgeAgent.Relay.Order.{kept, OneAtATime, buffer_after-Sublist}

abbrev idle : World
idle = record { stats = no_runs; active = 0; refused = 0; ended = 0 }

abbrev busy : World
busy = begin 1 idle

Reach-Balanced_example : Balanced 1 (finish false 0 busy)
unfolding begin_run
Reach-Balanced_example =
    Reach-Balanced 1 (finish false 0 busy) (answer {w = busy} false 0 refl (call {w = idle} start))

begin-overadmits_example :
    ((begin_run 1 busy.stats).1 ≡ rejected)
    × ((begin_run 1 (begin 1 busy).stats).1 ≡ admitted)
    × ((begin 1 (begin 1 busy)).active ≡ 2)
unfolding begin_run
begin-overadmits_example = begin-overadmits 1 busy (call {w = idle} start) refl refl

abbrev events : List (Event ℕ ℕ ℕ)
events =
    status_sent 5
    ∷ status_sent 6
    ∷ logs_sent (7 ∷ 8 ∷ 9 ∷ [])
    ∷ status_sent 4
    ∷ status_answered false 0
    ∷ interval_passed
    ∷ logs_answered true 0
    ∷ []

send_status-Bounded_example :
    (length (after events (new_relay (some 2))).status.items < 2 + 0)
    × (length (after events (new_relay (some 2))).metrics.items < 2 + 0)
    × (length (after events (new_relay (some 2))).logs.items < 2 + 0)
send_status-Bounded_example = send_status-Bounded (some 2) events

abbrev is_six : ℕ → Bool
is_six n = n == 6

after-conserved_example :
    (total is_six (after events (new_relay (some 2))).status ≡ 1)
    × (total is_six (after events (new_relay (some 2))).metrics ≡ 0)
    × (total is_six (after events (new_relay (some 2))).logs ≡ 0)
after-conserved_example = after-conserved is_six is_six is_six events (new_relay (some 2))

-- A call fails while another item is sent.
abbrev sends : List (BufferEvent ℕ)
sends = sent (1 ∷ 2 ∷ []) ∷ sent (3 ∷ []) ∷ answered false 0 ∷ flushed ∷ answered true 0 ∷ []

sends-OneAtATime : OneAtATime 1 2 sends no_items
unfolding send begin_flush settle
sends-OneAtATime =
    (omega arith, (omega arith, (omega arith, (omega arith, (omega arith, omega arith)))))

buffer_after-Sublist_example : Sublist (kept (buffer_after 1 2 sends no_items)) (1 ∷ 2 ∷ 3 ∷ [])
buffer_after-Sublist_example = buffer_after-Sublist 1 2 sends no_items sends-OneAtATime

-- The first of the two items that failed is left out.
sends-received : (buffer_after 1 2 sends no_items).received ≡ 2 ∷ 3 ∷ []
unfolding send begin_flush settle
sends-received = refl
