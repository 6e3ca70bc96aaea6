-- ===== src/Security/Siem/Interleaving.antt =====
-- packages/security/src/siem.ts: calls whose posts overlap. `flushQueue` takes its batch off the
-- queue before it awaits the post, so events arrive and other flushes start while it waits.
use sandstorm_monorepo.Common.{
  ◌+◌, ◌≡◌, ◌≢◌, refl, Bool, true, false, ◌&&◌, List, [], ◌∷◌, ◌++◌, take, drop, arith,
  take-append-drop,
}
use sandstorm_monorepo.Common.Counting.{count, count_all, count-append, count_all-append}
use sandstorm_monorepo.Core.Security.{SecurityEvent}
use sandstorm_monorepo.Security.Siem.{
  SiemIntegration, enabled_in, settle, splice_batch, batch_size_of,
}

-- The integration, the batches whose posts are awaited, and two lists kept for the statement: the
-- events that arrived and those that `sendEvent` took.
pub record World : Type 0 where
  pub siem : SiemIntegration
  pub in_flight : List (List SecurityEvent)
  pub arrived : List SecurityEvent
  pub accepted : List SecurityEvent

abbrev pub accept_event : SecurityEvent → World → World
accept_event e w = record w {
  siem = record w.siem { event_queue = w.siem.event_queue ++ e ∷ [] };
  accepted = w.accepted ++ e ∷ [];
}

unfoldable pub begin_flush : World → World
unfolding splice_batch
begin_flush w = record w {
  siem = (splice_batch w.siem).1;
  in_flight = (splice_batch w.siem).0 ∷ w.in_flight;
}

abbrev pub finish : Bool → List SecurityEvent → List (List SecurityEvent) → World → World
finish posted batch others w = record w {
  siem = (settle w.siem batch posted).after;
  in_flight = others;
  arrived = w.arrived ++ (settle w.siem batch posted).arrived;
}

pub data Step : World → World → Type 0 where
  accept :
      {w : World} (e : SecurityEvent) → enabled_in w.siem.config ≡ true → Step w (accept_event e w)
  start_flush :
      {w : World}
      → enabled_in w.siem.config && w.siem.has_client ≡ true
      → w.siem.event_queue ≢ []
      → Step w (begin_flush w)
  end_flush :
      {w : World} (posted : Bool) (earlier later : List (List SecurityEvent))
      (batch : List SecurityEvent)
      → w.in_flight ≡ earlier ++ batch ∷ later
      → Step w (finish posted batch (earlier ++ later) w)

pub data Steps : World → World → Type 0 where
  done : {w : World} → Steps w w
  next : {u v w : World} → Step u v → Steps v w → Steps u w

abbrev pub Conserved : (SecurityEvent → Bool) → World → Type 0
Conserved p w =
    count p w.accepted ≡ count p w.siem.event_queue + (count_all p w.in_flight + count p w.arrived)

Step-Conserved : (p : SecurityEvent → Bool) (v w : World) → Step v w → Conserved p v → Conserved p w
unfolding begin_flush splice_batch
Step-Conserved p v _ (accept e on) h =
    omega (arith, h, count-append p v.accepted (e ∷ []), count-append p v.siem.event_queue (e ∷ []))
Step-Conserved p v _ (start_flush on some_left) h =
    let n = batch_size_of v.siem.config in
    let q = v.siem.event_queue in
    let whole : count p (take n q ++ drop n q) ≡ count p q = rw (take-append-drop n q) refl in
    omega (arith, h, whole, count-append p (take n q) (drop n q))
Step-Conserved p v _ (end_flush true earlier later batch e) h =
    let before : count_all p v.in_flight ≡ count p batch + count_all p (earlier ++ later) =
      rw e (count_all-append p earlier batch later) in
    omega (arith, h, before, count-append p v.arrived batch)
Step-Conserved p v _ (end_flush false earlier later batch e) h =
    let before : count_all p v.in_flight ≡ count p batch + count_all p (earlier ++ later) =
      rw e (count_all-append p earlier batch later) in
    omega (arith, h, before, count-append p v.arrived [], count-append p batch v.siem.event_queue)

-- With a client, no interleaving of accepted events, flushes and outcomes of posts loses or
-- duplicates an event: for every test, as many accepted events pass it as wait in the queue, are in
-- flight, or have arrived, if it was so before.
pub Steps-Conserved :
    (p : SecurityEvent → Bool) (v w : World) → Steps v w → Conserved p v → Conserved p w
Steps-Conserved p v _ done h = h
Steps-Conserved p v w (next {v = m} s rest) h =
    Steps-Conserved p m w rest (Step-Conserved p v m s h)
