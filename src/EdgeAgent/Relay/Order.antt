-- ===== src/EdgeAgent/Relay/Order.antt =====
-- packages/edge-agent/src/telemetry.ts: the order in which items reach the cloud, where no two calls of
-- the client are in flight at once.
use sandstorm_monorepo.Common.{
  ℕ, zero, suc, ◌-◌, ◌≤◌, ◌≡◌, refl, subst, ap, ◌∙◌, Bool, true, false, List, [], ◌∷◌, ◌++◌, leb,
  length, slice_last, arith, append_nil, length-append, if◌then◌else◌,
}
use sandstorm_monorepo.Common.Sublists.{
  Sublist, all_of, drop-Sublist, append-Sublist, Sublist-trans,
}
use sandstorm_monorepo.EdgeAgent.Relay.{
  Buffer, begin_with, begin_flush, send, pick, deliver, answer,
}
use sandstorm_monorepo.EdgeAgent.Relay.Events.{
  BufferEvent, sent, flushed, answered, buffer_step, buffer_after, sent_by,
}

module _ {B : Type 0} where
  append_assoc : (xs ys zs : List B) → (xs ++ ys) ++ zs ≡ xs ++ (ys ++ zs)
  append_assoc [] ys zs = refl
  append_assoc (x ∷ xs) ys zs = rw (append_assoc xs ys zs) refl

  abbrev pub joined : List (List B) → List B
  joined [] = []
  joined (x ∷ xs) = x ++ joined xs

  -- What was received, what is in flight, and what waits, in this order.
  abbrev pub kept : Buffer B → List B
  kept b = b.received ++ (joined b.in_flight ++ b.items)

  abbrev pub sent_now : BufferEvent B → List B
  sent_now (sent xs) = xs
  sent_now flushed = []
  sent_now (answered s k) = []

  -- At most one call is in flight before each of the events, and at the end.
  abbrev pub OneAtATime : ℕ → ℕ → List (BufferEvent B) → Buffer B → Type 0
  OneAtATime keep batch [] b = length b.in_flight ≤ 1
  OneAtATime keep batch (e ∷ es) b =
      (length b.in_flight ≤ 1) × OneAtATime keep batch es (buffer_step keep batch e b)

  OneAtATime-now :
      (keep batch : ℕ) (es : List (BufferEvent B)) (b : Buffer B)
      → OneAtATime keep batch es b
      → length b.in_flight ≤ 1
  OneAtATime-now keep batch [] b h = h
  OneAtATime-now keep batch (e ∷ es) b (h, _) = h

  begin-kept : (b : Buffer B) → length (begin_flush b).in_flight ≤ 1 → kept (begin_flush b) ≡ kept b
  unfolding begin_flush
  begin-kept b = go b.items b.in_flight refl refl
    where
      go :
          (xs : List B) (fs : List (List B))
          → b.items ≡ xs
          → b.in_flight ≡ fs
          → length (begin_with xs b).in_flight ≤ 1
          → kept (begin_with xs b) ≡ kept b
      go [] fs e f h = refl
      go (x ∷ xs) [] e f h =
          rw (f, e)
            (ap (λ ys. b.received ++ ys) (append_nil ((x ∷ xs) ++ []) ∙ append_nil (x ∷ xs)))
      go (x ∷ xs) (y ∷ fs) e f h =
          absurd (omega (arith, h, length-append b.in_flight ((x ∷ xs) ∷ []), ap length f))

  send-kept :
      (batch : ℕ) (xs : List B) (b : Buffer B)
      → length (send batch xs b).in_flight ≤ 1
      → kept (send batch xs b) ≡ kept b ++ xs
  unfolding send
  send-kept batch xs b = go (leb batch (length (b.items ++ xs)))
    where
      pushed : Buffer B
      pushed = record b { items = b.items ++ xs }

      more : kept pushed ≡ kept b ++ xs
      more =
          rw
            (
              append_assoc b.received (joined b.in_flight ++ b.items) xs,
              append_assoc (joined b.in_flight) b.items xs,
            )
            refl

      go :
          (full : Bool)
          → length (if full then begin_flush pushed else pushed).in_flight ≤ 1
          → kept (if full then begin_flush pushed else pushed) ≡ kept b ++ xs
      go true h = begin-kept pushed h ∙ more
      go false h = more

  answer-Sublist :
      (keep : ℕ) (s : Bool) (k : ℕ) (b : Buffer B)
      → length b.in_flight ≤ 1
      → Sublist (kept (answer keep s k b)) (kept b)
  unfolding answer
  answer-Sublist keep s k b = go s k b.in_flight refl
    where
      go :
          (s : Bool) (k : ℕ) (fs : List (List B))
          → b.in_flight ≡ fs
          → length fs ≤ 1
          → Sublist (kept (deliver keep s (pick k fs) b)) (kept b)
      go s k [] e h = all_of (kept b)
      go s k (x ∷ y ∷ fs) e h = absurd (omega (arith, h))
      go s (suc k) (x ∷ []) e h = all_of (kept b)
      go true zero (x ∷ []) e h =
          rw (e, append_nil x, append_assoc b.received x b.items)
            (all_of (b.received ++ (x ++ b.items)))
      go false zero (x ∷ []) e h =
          rw (e, append_nil x)
            (append-Sublist b.received b.received _ _ (all_of b.received) (
              append-Sublist (slice_last keep x) x b.items b.items
                (drop-Sublist (length x - keep) x) (all_of b.items)))

  step-Sublist :
      (keep batch : ℕ) (e : BufferEvent B) (b : Buffer B)
      → length b.in_flight ≤ 1
      → length (buffer_step keep batch e b).in_flight ≤ 1
      → Sublist (kept (buffer_step keep batch e b)) (kept b ++ sent_now e)
  step-Sublist keep batch (sent xs) b h g = rw (send-kept batch xs b g) (all_of (kept b ++ xs))
  step-Sublist keep batch flushed b h g = rw (append_nil (kept b), begin-kept b g) (all_of (kept b))
  step-Sublist keep batch (answered s k) b h g =
      rw (append_nil (kept b)) (answer-Sublist keep s k b h)

  sent_by-cons :
      (e : BufferEvent B) (es : List (BufferEvent B)) → sent_now e ++ sent_by es ≡ sent_by (e ∷ es)
  sent_by-cons (sent xs) es = refl
  sent_by-cons flushed es = refl
  sent_by-cons (answered s k) es = refl

  -- Over any sequence of sends, flushes and answers of a buffer in which at most one call is in flight
  -- at a time, what the cloud received, what is in flight and what waits, in this order, are items that
  -- were there or were sent, each at most as often, in the order in which they came: also where a call
  -- fails while more items were sent.
  pub buffer_after-Sublist :
      (keep batch : ℕ) (es : List (BufferEvent B)) (b : Buffer B)
      → OneAtATime keep batch es b
      → Sublist (kept (buffer_after keep batch es b)) (kept b ++ sent_by es)
  buffer_after-Sublist keep batch [] b h = rw (append_nil (kept b)) (all_of (kept b))
  buffer_after-Sublist keep batch (e ∷ es) b (h, rest) =
      let next = buffer_step keep batch e b in
      let first = step-Sublist keep batch e b h (OneAtATime-now keep batch es next rest) in
      let grown : Sublist (kept next ++ sent_by es) ((kept b ++ sent_now e) ++ sent_by es) =
        append-Sublist _ _ _ _ first (all_of (sent_by es)) in
      let whole : (kept b ++ sent_now e) ++ sent_by es ≡ kept b ++ sent_by (e ∷ es) =
        append_assoc (kept b) (sent_now e) (sent_by es)
        ∙ ap (λ ys. kept b ++ ys) (sent_by-cons e es) in
      subst (Sublist (kept (buffer_after keep batch es next))) whole
        (Sublist-trans _ _ _ (buffer_after-Sublist keep batch es next rest) grown)
