-- ===== src/Security/Siem/Lost.antt =====
-- packages/security/src/siem.ts: an enabled configuration without a webhook.
use sandstorm_monorepo.Common.{
  ℕ, zero, suc, ◌≤◌, ◌<◌, ◌≡◌, refl, ap, ◌∙◌, inl, inr, Bool, true, false, ◌&&◌, Option, none, some,
  List, [], ◌∷◌, ◌++◌, leb, length, arith, Bool-cases, length-drop, length-append,
}
use sandstorm_monorepo.Core.Security.{SecurityEvent}
use sandstorm_monorepo.Security.Siem.{
  SiemConfig, SiemIntegration, given, enabled_in, or_default, batch_size_of, wants_client,
  initialize, send_batch, splice_batch, flush_some, flush_queue, send_event,
}
use sandstorm_monorepo.Security.Siem.Flush.{flush_queue-loses}

-- The integration after the constructor.
abbrev pub new_siem : SiemIntegration
new_siem = record { config = none; has_client = false; event_queue = []; has_timer = false }

-- Events that are sent one after another, and all that arrived. The flags are the outcomes of posts.
abbrev pub send_each :
    List (Bool × SecurityEvent) → SiemIntegration → SiemIntegration × List SecurityEvent
send_each [] siem = (siem, [])
send_each ((posted, event) ∷ rest) siem =
    let now = send_event posted event siem in
    let later = send_each rest now.0 in (later.0, now.1 ++ later.1)

-- Without a client, a queue of less than a batch.
record IsDeaf (c : SiemConfig) (siem : SiemIntegration) : Type 0 where
  config_is : siem.config ≡ some c
  no_client : siem.has_client ≡ false
  not_full : length siem.event_queue < batch_size_of (some c)

flush_queue-fields :
    (posted : Bool) (siem : SiemIntegration)
    → siem.has_client ≡ false
    → ((flush_queue posted siem).0.config ≡ siem.config)
      × ((flush_queue posted siem).0.has_client ≡ siem.has_client)
unfolding flush_queue send_batch splice_batch
flush_queue-fields posted siem h = go siem.event_queue
  where
    off : (enabled_in siem.config && siem.has_client) ≡ false
    off = ground (arith, h)

    go :
        (q : List SecurityEvent)
        → ((flush_some posted q siem).0.config ≡ siem.config)
          × ((flush_some posted q siem).0.has_client ≡ siem.has_client)
    go [] = (refl, refl)
    go (x ∷ q) = rw off (refl, refl)

or_default-positive : (o : Option ℕ) (d : ℕ) → 0 < or_default o (suc d)
or_default-positive none d = omega arith
or_default-positive (some zero) d = omega arith
or_default-positive (some (suc k)) d = omega arith

module _ (c : SiemConfig) (enabled : c.enabled ≡ true) where
  flushed-IsDeaf :
      (posted : Bool) (siem : SiemIntegration)
      → siem.config ≡ some c
      → siem.has_client ≡ false
      → length siem.event_queue ≤ batch_size_of (some c)
      → IsDeaf c (flush_queue posted siem).0 × ((flush_queue posted siem).1 ≡ [])
  flushed-IsDeaf posted siem config_is no_client few =
      let fields = flush_queue-fields posted siem no_client in
      let lost = flush_queue-loses posted siem no_client in
      let size : batch_size_of siem.config ≡ batch_size_of (some c) = ap batch_size_of config_is in
      (
        record {
          config_is = fields.0 ∙ config_is;
          no_client = fields.1 ∙ no_client;
          not_full = omega (
            arith,
            few,
            size,
            ap length lost.1,
            length-drop (batch_size_of siem.config) siem.event_queue,
            or_default-positive c.batch_size 99,
          );
        },
        lost.0,
      )

  send_event-IsDeaf :
      (posted : Bool) (event : SecurityEvent) (siem : SiemIntegration)
      → IsDeaf c siem
      → IsDeaf c (send_event posted event siem).0 × ((send_event posted event siem).1 ≡ [])
  unfolding send_event
  send_event-IsDeaf posted event siem deaf =
      let queued = record siem { event_queue = siem.event_queue ++ event ∷ [] } in
      let on : enabled_in siem.config ≡ true = ap enabled_in deaf.config_is ∙ enabled in
      let size : batch_size_of siem.config ≡ batch_size_of (some c) =
        ap batch_size_of deaf.config_is in
      let longer = length-append siem.event_queue (event ∷ []) in
      elim (Bool-cases
        (leb (batch_size_of siem.config) (length (siem.event_queue ++ event ∷ [])))) [
          | inl full ↦
              simp (on, full)
                (flushed-IsDeaf posted queued deaf.config_is deaf.no_client
                  (omega (arith, longer, deaf.not_full)))
          | inr free ↦
              simp (on, free)
                (
                  record {
                    config_is = deaf.config_is;
                    no_client = deaf.no_client;
                    not_full = ground (arith, free, size);
                  },
                  refl,
                )
        ]

  send_each-IsDeaf :
      (events : List (Bool × SecurityEvent)) (siem : SiemIntegration)
      → IsDeaf c siem
      → IsDeaf c (send_each events siem).0 × ((send_each events siem).1 ≡ [])
  send_each-IsDeaf [] siem deaf = (deaf, refl)
  send_each-IsDeaf ((posted, event) ∷ rest) siem deaf =
      let now = send_event-IsDeaf posted event siem deaf in
      let later = send_each-IsDeaf rest (send_event posted event siem).0 now.0 in
      (
        later.0,
        ap (λ xs. xs ++ (send_each rest (send_event posted event siem).0).1) now.1 ∙ later.1,
      )

  -- A new integration that is initialised with an enabled configuration without a webhook loses events:
  -- whatever is sent, nothing ever arrives, and the queue holds less than one batch after each send.
  pub send_each-loses :
      (events : List (Bool × SecurityEvent))
      → given c.webhook ≡ false
      → let (after, arrived) = send_each events (initialize (some c) new_siem) in
        (arrived ≡ []) × (length after.event_queue < batch_size_of (some c))
  unfolding initialize
  send_each-loses events no_webhook =
      let deaf : IsDeaf c (initialize (some c) new_siem) =
        (let off : wants_client (some c) ≡ false = rw (enabled, no_webhook) refl in
          rw off (record {
            config_is = refl;
            no_client = refl;
            not_full = or_default-positive c.batch_size 99;
          })) in
      let (kept, none_arrived) = send_each-IsDeaf events (initialize (some c) new_siem) deaf in
      (none_arrived, kept.not_full)
