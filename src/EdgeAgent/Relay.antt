-- ===== src/EdgeAgent/Relay.antt =====
-- packages/edge-agent/src/telemetry.ts: the buffers of `CloudTelemetryRelay`. A flush takes its batch
-- off the buffer before it awaits the call of the client, so items are sent and other flushes start
-- while it waits: an event of the relay is a send or the interval's flush, up to its `await`, or the
-- answer to one of the calls in flight. The types of the items are parameters: the relay only keeps
-- them. A batch size is a natural number.
pub mod Events
pub mod Bounds
pub mod Conserved
pub mod Order
use sandstorm_monorepo.Common.{
  ℕ, zero, suc, ◌-◌, Bool, true, false, Option, none, some, List, [], ◌∷◌, ◌++◌, leb, length,
  slice_last, take, if◌then◌else◌,
}

-- A buffer, with the batches whose calls are awaited and, for the statements, the items that the cloud
-- has received and those that `slice` has left out.
pub record Buffer (B : Type 0) : Type 0 where
  pub items : List B
  pub in_flight : List (List B)
  pub received : List B
  pub dropped : List B

-- `config.batchSize || default`
abbrev pub batch_size_or : Option ℕ → ℕ → ℕ
batch_size_or none d = d
batch_size_or (some zero) d = d
batch_size_or (some (suc k)) d = suc k

module _ {B : Type 0} where
  -- A flush up to its `await`: an empty buffer is left alone, and `splice(0)` empties another.
  abbrev pub begin_with : List B → Buffer B → Buffer B
  begin_with [] b = b
  begin_with (x ∷ xs) b = record b { items = []; in_flight = b.in_flight ++ (x ∷ xs) ∷ [] }

  unfoldable pub begin_flush : Buffer B → Buffer B
  begin_flush b = begin_with b.items b

  -- The items are pushed, and the buffer flushed if it has reached the batch size.
  unfoldable pub send : ℕ → List B → Buffer B → Buffer B
  unfolding begin_flush
  send batch xs b =
      let pushed = record b { items = b.items ++ xs } in
      if leb batch (length pushed.items) then begin_flush pushed else pushed

  -- The k-th batch in flight, and the others.
  abbrev pub beside : List B → Option (List B × List (List B)) → Option (List B × List (List B))
  beside x none = none
  beside x (some (y, ys)) = some (y, x ∷ ys)

  abbrev pub pick : ℕ → List (List B) → Option (List B × List (List B))
  pick k [] = none
  pick zero (x ∷ xs) = some (x, xs)
  pick (suc k) (x ∷ xs) = beside x (pick k xs)

  -- The call returns, or throws: then the `catch` puts the last items back, before those that were
  -- buffered in the meantime.
  abbrev pub deliver : ℕ → Bool → Option (List B × List (List B)) → Buffer B → Buffer B
  deliver keep sent none b = b
  deliver keep true (some (batch, others)) b = record b {
    in_flight = others;
    received = b.received ++ batch;
  }
  deliver keep false (some (batch, others)) b = record b {
    in_flight = others;
    items = slice_last keep batch ++ b.items;
    dropped = b.dropped ++ take (length batch - keep) batch;
  }

  -- The answer to the k-th call in flight.
  unfoldable pub answer : ℕ → Bool → ℕ → Buffer B → Buffer B
  answer keep sent k b = deliver keep sent (pick k b.in_flight) b

  abbrev pub no_items : Buffer B
  no_items = record { items = []; in_flight = []; received = []; dropped = [] }

-- The three buffers: of statuses, metrics and log entries.
pub record CloudTelemetryRelay (S M L : Type 0) : Type 0 where
  pub batch_size : Option ℕ
  pub status : Buffer S
  pub metrics : Buffer M
  pub logs : Buffer L

module _ {S M L : Type 0} where
  abbrev pub new_relay : Option ℕ → CloudTelemetryRelay S M L
  new_relay size = record {
    batch_size = size;
    status = no_items;
    metrics = no_items;
    logs = no_items;
  }

  unfoldable pub send_status : S → CloudTelemetryRelay S M L → CloudTelemetryRelay S M L
  unfolding send
  send_status x r = record r { status = send (batch_size_or r.batch_size 10) (x ∷ []) r.status }

  unfoldable pub send_metrics : M → CloudTelemetryRelay S M L → CloudTelemetryRelay S M L
  unfolding send
  send_metrics x r = record r { metrics = send (batch_size_or r.batch_size 50) (x ∷ []) r.metrics }

  unfoldable pub send_logs : List L → CloudTelemetryRelay S M L → CloudTelemetryRelay S M L
  unfolding send
  send_logs xs r = record r { logs = send (batch_size_or r.batch_size 100) xs r.logs }

  -- The interval's `flush`, which starts all three.
  unfoldable pub flush_all : CloudTelemetryRelay S M L → CloudTelemetryRelay S M L
  unfolding begin_flush
  flush_all r = record r {
    status = begin_flush r.status;
    metrics = begin_flush r.metrics;
    logs = begin_flush r.logs;
  }

  -- The rest of a flush of one of the buffers, after the `await`.
  unfoldable pub end_flush_status : Bool → ℕ → CloudTelemetryRelay S M L → CloudTelemetryRelay S M L
  unfolding answer
  end_flush_status sent k r = record r { status = answer 10 sent k r.status }

  unfoldable pub end_flush_metrics :
      Bool → ℕ → CloudTelemetryRelay S M L → CloudTelemetryRelay S M L
  unfolding answer
  end_flush_metrics sent k r = record r { metrics = answer 50 sent k r.metrics }

  unfoldable pub end_flush_logs : Bool → ℕ → CloudTelemetryRelay S M L → CloudTelemetryRelay S M L
  unfolding answer
  end_flush_logs sent k r = record r { logs = answer 100 sent k r.logs }
