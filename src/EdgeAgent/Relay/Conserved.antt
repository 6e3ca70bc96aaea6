-- ===== src/EdgeAgent/Relay/Conserved.antt =====
-- packages/edge-agent/src/telemetry.ts: no item is lost or doubled, but those that `slice` leaves out.
use sandstorm_monorepo.Common.{
  ℕ, zero, suc, ◌+◌, ◌-◌, ◌≡◌, refl, ap, ◌∙◌, inl, inr, Bool, true, false, Option, none, some, List,
  [], ◌∷◌, ◌++◌, leb, length, slice_last, take, drop, arith, Bool-cases, take-append-drop,
}
use sandstorm_monorepo.Common.Counting.{count, count_all, count-append, count_all-append}
use sandstorm_monorepo.EdgeAgent.Relay.{
  Buffer, begin_with, begin_flush, send, beside, pick, deliver, answer, CloudTelemetryRelay,
}
use sandstorm_monorepo.EdgeAgent.Relay.Events.{
  Event, BufferEvent, sent, flushed, answered, buffer_after, sent_by, after, of_status, of_metrics,
  of_logs, after-Follows,
}

module _ {B : Type 0} (p : B → Bool) where
  -- The items of the buffer that pass, wherever they are.
  abbrev pub total : Buffer B → ℕ
  total b = count p b.items + count_all p b.in_flight + count p b.received + count p b.dropped

  begin-total : (b : Buffer B) → total (begin_flush b) ≡ total b
  unfolding begin_flush
  begin-total b = go b.items refl
    where
      go : (xs : List B) → b.items ≡ xs → total (begin_with xs b) ≡ total b
      go [] e = refl
      go (x ∷ xs) e = omega (
        arith,
        ap (count p) e,
        count_all-append p b.in_flight (x ∷ xs) [],
        ap (count_all p) (append_none b.in_flight),
      )
        where
          append_none : (ys : List (List B)) → ys ++ [] ≡ ys
          append_none [] = refl
          append_none (y ∷ ys) = ap (λ zs. y ∷ zs) (append_none ys)

  send-total :
      (batch : ℕ) (xs : List B) (b : Buffer B) → total (send batch xs b) ≡ total b + count p xs
  unfolding send
  send-total batch xs b =
      let pushed = record b { items = b.items ++ xs } in
      elim (Bool-cases (leb batch (length (b.items ++ xs)))) [
        | inl full ↦ rw full (omega (arith, begin-total pushed, count-append p b.items xs))
        | inr free ↦ rw free (omega (arith, count-append p b.items xs))
      ]

  pick-count :
      (k : ℕ) (bs : List (List B)) (batch : List B) (others : List (List B))
      → pick k bs ≡ some (batch, others)
      → count_all p bs ≡ count p batch + count_all p others
  pick-count k [] batch others e = cc
  pick-count zero (x ∷ xs) batch others e = ground (arith, e)
  pick-count (suc k) (x ∷ xs) batch others e =
      go (pick k xs) (λ y ys same. pick-count k xs y ys same) e
    where
      go :
          (o : Option (List B × List (List B)))
          → ((y : List B) (ys : List (List B))
              → o ≡ some (y, ys)
              → count_all p xs ≡ count p y + count_all p ys)
          → beside x o ≡ some (batch, others)
          → count_all p (x ∷ xs) ≡ count p batch + count_all p others
      go none rest e = cc
      go (some (y, ys)) rest e =
          let one : y ≡ batch = cc in
          let more : x ∷ ys ≡ others = cc in
          omega (arith, rest y ys refl, ap (count p) one, ap (count_all p) more)

  answer-total : (keep : ℕ) (s : Bool) (k : ℕ) (b : Buffer B) → total (answer keep s k b) ≡ total b
  unfolding answer
  answer-total keep s k b = go s (pick k b.in_flight) refl
    where
      go :
          (s : Bool) (o : Option (List B × List (List B)))
          → pick k b.in_flight ≡ o
          → total (deliver keep s o b) ≡ total b
      go s none e = refl
      go true (some (batch, others)) e =
          omega (arith, pick-count k b.in_flight batch others e, count-append p b.received batch)
      go false (some (batch, others)) e =
          let n = length batch - keep in
          omega (
            arith,
            pick-count k b.in_flight batch others e,
            count-append p (slice_last keep batch) b.items,
            count-append p b.dropped (take n batch),
            count-append p (take n batch) (drop n batch),
            ap (count p) (take-append-drop n batch),
          )

  buffer_after-total :
      (keep batch : ℕ) (es : List (BufferEvent B)) (b : Buffer B)
      → total (buffer_after keep batch es b) ≡ total b + count p (sent_by es)
  buffer_after-total keep batch [] b = omega arith
  buffer_after-total keep batch (sent xs ∷ es) b = omega (
    arith,
    buffer_after-total keep batch es (send batch xs b),
    send-total batch xs b,
    count-append p xs (sent_by es),
  )
  buffer_after-total keep batch (flushed ∷ es) b =
      omega (arith, buffer_after-total keep batch es (begin_flush b), begin-total b)
  buffer_after-total keep batch (answered s k ∷ es) b =
      omega (arith, buffer_after-total keep batch es (answer keep s k b), answer-total keep s k b)

module _ {S M L : Type 0} where
  -- Over any sequence of sends, flushes of the interval and answers of the client, which may overlap
  -- and come in any order, no item is lost or doubled but those that the `slice` of a failed call leaves
  -- out: for all tests, as many statuses, metrics and log entries that pass have been received, are in
  -- flight, wait in the buffer or were left out as there were before, and those that were sent.
  pub after-conserved :
      (p : S → Bool) (q : M → Bool) (t : L → Bool) (es : List (Event S M L))
      (r : CloudTelemetryRelay S M L)
      → (total p (after es r).status ≡ total p r.status + count p (sent_by (of_status es)))
        × (total q (after es r).metrics ≡ total q r.metrics + count q (sent_by (of_metrics es)))
        × (total t (after es r).logs ≡ total t r.logs + count t (sent_by (of_logs es)))
  after-conserved p q t es r =
      let f = after-Follows es r in
      (
        ap (total p) f.status_follows ∙ buffer_after-total p _ _ (of_status es) r.status,
        ap (total q) f.metrics_follows ∙ buffer_after-total q _ _ (of_metrics es) r.metrics,
        ap (total t) f.logs_follows ∙ buffer_after-total t _ _ (of_logs es) r.logs,
      )
