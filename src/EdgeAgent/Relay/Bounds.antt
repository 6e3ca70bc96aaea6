-- ===== src/EdgeAgent/Relay/Bounds.antt =====
-- packages/edge-agent/src/telemetry.ts: how much the buffers hold.
use sandstorm_monorepo.Common.{
  ℕ, zero, suc, ◌+◌, ◌<◌, ◌≡◌, refl, ap, inl, inr, Bool, true, false, Option, none, some, List, [],
  ◌∷◌, ◌++◌, leb, length, slice_last, arith, Bool-cases, length-slice_last, length-append,
}
use sandstorm_monorepo.EdgeAgent.Relay.{
  Buffer, batch_size_or, begin_with, begin_flush, send, pick, deliver, answer, new_relay,
}
use sandstorm_monorepo.EdgeAgent.Relay.Events.{
  Event, BufferEvent, sent, flushed, answered, buffer_after, put_back, after, of_status, of_metrics,
  of_logs, after-Follows,
}

module _ {B : Type 0} where
  begin-empties : (b : Buffer B) → (begin_flush b).items ≡ []
  unfolding begin_flush
  begin-empties b = go b.items refl
    where
      go : (xs : List B) → b.items ≡ xs → (begin_with xs b).items ≡ []
      go [] e = e
      go (x ∷ xs) e = refl

  send-less :
      (batch : ℕ) (xs : List B) (b : Buffer B) → 0 < batch → length (send batch xs b).items < batch
  unfolding send
  send-less batch xs b positive =
      let pushed = record b { items = b.items ++ xs } in
      elim (Bool-cases (leb batch (length (b.items ++ xs)))) [
        | inl full ↦ rw full (omega (arith, positive, ap length (begin-empties pushed)))
        | inr free ↦ rw free (ground (arith, free))
      ]

  deliver-less :
      (keep batch n k : ℕ) (s : Bool) (o : Option (List B × List (List B))) (b : Buffer B)
      (es : List (BufferEvent B))
      → length b.items < batch + n
      → ((m : ℕ)
          → length (deliver keep s o b).items < batch + m
          → length (buffer_after keep batch es (deliver keep s o b)).items
            < batch + put_back keep m es)
      → length (buffer_after keep batch es (deliver keep s o b)).items
        < batch + put_back keep n (answered s k ∷ es)
  deliver-less keep batch n k true none b es h rest = rest n h
  deliver-less keep batch n k false none b es h rest = rest (n + keep) (omega (arith, h))
  deliver-less keep batch n k true (some (x, others)) b es h rest = rest n h
  deliver-less keep batch n k false (some (x, others)) b es h rest =
      rest (n + keep)
        (omega (arith, h, length-append (slice_last keep x) b.items, length-slice_last keep x))

  buffer_after-less :
      (keep batch n : ℕ) (es : List (BufferEvent B)) (b : Buffer B)
      → 0 < batch
      → length b.items < batch + n
      → length (buffer_after keep batch es b).items < batch + put_back keep n es
  unfolding answer
  buffer_after-less keep batch n [] b positive h = h
  buffer_after-less keep batch n (sent xs ∷ es) b positive h =
      buffer_after-less keep batch 0 es (send batch xs b) positive
        (omega (arith, send-less batch xs b positive))
  buffer_after-less keep batch n (flushed ∷ es) b positive h =
      buffer_after-less keep batch 0 es (begin_flush b) positive
        (omega (arith, positive, ap length (begin-empties b)))
  buffer_after-less keep batch n (answered s k ∷ es) b positive h =
      deliver-less keep batch n k s (pick k b.in_flight) b es h
        λ m less. buffer_after-less keep batch m es _ positive less

batch_size_or-positive : (size : Option ℕ) (d : ℕ) → 0 < batch_size_or size (suc d)
batch_size_or-positive none d = omega arith
batch_size_or-positive (some zero) d = omega arith
batch_size_or-positive (some (suc k)) d = omega arith

module _ {S M L : Type 0} where
  -- After any sequence of sends, flushes of the interval and answers of the client, which may overlap
  -- and of which any may be a failure, each buffer of a new relay holds less than a batch, beside at most
  -- 10 statuses, 50 metrics or 100 log entries for each failed call since the last send to it or flush of
  -- it. The batch size is a natural number.
  pub send_status-Bounded :
      (size : Option ℕ) (es : List (Event S M L))
      → (length (after es (new_relay size)).status.items
          < batch_size_or size 10 + put_back 10 0 (of_status es))
        × (length (after es (new_relay size)).metrics.items
            < batch_size_or size 50 + put_back 50 0 (of_metrics es))
        × (length (after es (new_relay size)).logs.items
            < batch_size_or size 100 + put_back 100 0 (of_logs es))
  send_status-Bounded size es =
      let f = after-Follows es (new_relay size) in
      (
        rw f.status_follows (
            buffer_after-less 10 (batch_size_or size 10) 0 (of_status es) _
              (batch_size_or-positive size 9) (omega (arith, batch_size_or-positive size 9))),
        rw f.metrics_follows (
            buffer_after-less 50 (batch_size_or size 50) 0 (of_metrics es) _
              (batch_size_or-positive size 49) (omega (arith, batch_size_or-positive size 49))),
        rw f.logs_follows (
            buffer_after-less 100 (batch_size_or size 100) 0 (of_logs es) _
              (batch_size_or-positive size 99) (omega (arith, batch_size_or-positive size 99))),
      )
