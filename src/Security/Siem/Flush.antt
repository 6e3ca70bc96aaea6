-- ===== src/Security/Siem/Flush.antt =====
-- packages/security/src/siem.ts: what one flush does to the queue.
use sandstorm_monorepo.Common.{
  ℕ, zero, suc, min, ◌≡◌, refl, sym, Bool, true, false, ◌&&◌, List, [], ◌∷◌, ◌++◌, if◌then◌else◌,
  length, drop, arith, take-append-drop, length-take,
}
use sandstorm_monorepo.Core.Security.{SecurityEvent}
use sandstorm_monorepo.Security.Siem.{
  SiemIntegration, enabled_in, batch_size_of, send_batch, splice_batch, flush_some, flush_queue,
}

drop_nil : {A : Type 0} (n : ℕ) → drop {A = A} n [] ≡ []
drop_nil zero = refl
drop_nil (suc n) = refl

-- With a client, a flush sends the oldest events up to the batch size and keeps the others in
-- order; if the post fails it sends nothing and the queue is as before.
pub flush_queue-keeps :
    (posted : Bool) (siem : SiemIntegration)
    → enabled_in siem.config && siem.has_client ≡ true
    → let (after, arrived) = flush_queue posted siem in
      (arrived ++ after.event_queue ≡ siem.event_queue)
      × (length arrived
          ≡ (if posted then min (batch_size_of siem.config) (length siem.event_queue) else 0))
unfolding flush_queue send_batch splice_batch
flush_queue-keeps posted siem h = go posted siem.event_queue refl
  where
    n : ℕ
    n = batch_size_of siem.config

    whole : List SecurityEvent
    whole = siem.event_queue

    go :
        (posted : Bool) (q : List SecurityEvent)
        → siem.event_queue ≡ q
        → let (after, arrived) = flush_some posted q siem in
          (arrived ++ after.event_queue ≡ siem.event_queue)
          × (length arrived
              ≡ (if posted then min (batch_size_of siem.config) (length siem.event_queue) else 0))
    go true [] e = (refl, rw e (omega arith))
    go false [] e = (refl, refl)
    go true (x ∷ q) e = rw h (take-append-drop n whole, length-take n whole)
    go false (x ∷ q) e = rw h (take-append-drop n whole, refl)

-- Without a client, as an enabled configuration without a webhook leaves it, a flush sends nothing
-- and takes the batch off the queue: its events are lost.
pub flush_queue-loses :
    (posted : Bool) (siem : SiemIntegration)
    → siem.has_client ≡ false
    → let (after, arrived) = flush_queue posted siem in
      (arrived ≡ []) × (after.event_queue ≡ drop (batch_size_of siem.config) siem.event_queue)
unfolding flush_queue send_batch splice_batch
flush_queue-loses posted siem h = go siem.event_queue refl
  where
    off : (enabled_in siem.config && siem.has_client) ≡ false
    off = ground (arith, h)

    go :
        (q : List SecurityEvent)
        → siem.event_queue ≡ q
        → let (after, arrived) = flush_some posted q siem in
          (arrived ≡ []) × (after.event_queue ≡ drop (batch_size_of siem.config) siem.event_queue)
    go [] e = (refl, rw e (sym (drop_nil (batch_size_of siem.config))))
    go (x ∷ q) e = rw off (refl, refl)
