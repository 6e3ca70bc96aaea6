-- ===== src/Security/Siem.antt =====
-- packages/security/src/siem.ts: the queue of `SiemIntegration` and the batches that it posts. The
-- payload of a batch is left out: a batch is the list of its events. Whether a post succeeds is an
-- argument.
pub mod Flush
pub mod Interleaving
pub mod Lost
use sandstorm_monorepo.Common.{
  ℕ, zero, suc, String, Bool, true, false, ◌&&◌, ◌||◌, not, Option, none, some, List, [], ◌∷◌, ◌++◌,
  if◌then◌else◌, leb, ◌==◌, string_eq, nat_eq, length, take, drop,
}
use sandstorm_monorepo.Common.Result.{Result, ok, throw}
use sandstorm_monorepo.Core.Security.{SecurityEvent}

pub record SiemConfig : Type 0 where
  pub enabled : Bool
  pub webhook : Option String
  pub api_key : Option String
  pub batch_size : Option ℕ
  pub flush_interval : Option ℕ

-- `has_client` and `has_timer` say whether `client` and `flushTimer` are set.
pub record SiemIntegration : Type 0 where
  pub config : Option SiemConfig
  pub has_client : Bool
  pub event_queue : List SecurityEvent
  pub has_timer : Bool

abbrev pub given : Option String → Bool
given none = false
given (some s) = not (s == "")

abbrev pub enabled_in : Option SiemConfig → Bool
enabled_in none = false
enabled_in (some c) = c.enabled

-- `value || default`
abbrev pub or_default : Option ℕ → ℕ → ℕ
or_default none d = d
or_default (some zero) d = d
or_default (some (suc k)) d = suc k

abbrev pub batch_size_of : Option SiemConfig → ℕ
batch_size_of none = 100
batch_size_of (some c) = or_default c.batch_size 100

abbrev pub wants_client : Option SiemConfig → Bool
wants_client none = false
wants_client (some c) = c.enabled && given c.webhook

-- Without an enabled configuration with a webhook, client and timer stay as they were.
unfoldable pub initialize : Option SiemConfig → SiemIntegration → SiemIntegration
initialize config siem =
    if wants_client config
    then record siem { config = config; has_client = true; has_timer = true }
    else record siem { config = config }

-- What a call leaves: the integration, the events that arrived, and whether it threw.
pub record Sent : Type 0 where
  pub after : SiemIntegration
  pub arrived : List SecurityEvent
  pub outcome : Result (Unit {0})

abbrev pub settle : SiemIntegration → List SecurityEvent → Bool → Sent
settle siem events true = record { after = siem; arrived = events; outcome = ok tt }
settle siem events false = record {
  after = record siem { event_queue = events ++ siem.event_queue };
  arrived = [];
  outcome = throw "Failed to send events to SIEM";
}

unfoldable pub send_batch : Bool → List SecurityEvent → SiemIntegration → Sent
send_batch posted events siem =
    if enabled_in siem.config && siem.has_client
    then settle siem events posted
    else record { after = siem; arrived = []; outcome = ok tt }

-- `eventQueue.splice(0, batchSize)`: the batch, and the integration without it.
unfoldable pub splice_batch : SiemIntegration → List SecurityEvent × SiemIntegration
splice_batch siem = (
  take (batch_size_of siem.config) siem.event_queue,
  record siem { event_queue = drop (batch_size_of siem.config) siem.event_queue },
)

-- `flushQueue` catches what `sendBatch` throws.
abbrev pub flush_some :
    Bool → List SecurityEvent → SiemIntegration → SiemIntegration × List SecurityEvent
flush_some posted [] siem = (siem, [])
flush_some posted (e ∷ es) siem =
    let (batch, rest) = splice_batch siem in
    let sent = send_batch posted batch rest in (sent.after, sent.arrived)

unfoldable pub flush_queue : Bool → SiemIntegration → SiemIntegration × List SecurityEvent
unfolding splice_batch send_batch
flush_queue posted siem = flush_some posted siem.event_queue siem

unfoldable pub send_event :
    Bool → SecurityEvent → SiemIntegration → SiemIntegration × List SecurityEvent
unfolding flush_queue
send_event posted event siem =
    let queued = record siem { event_queue = siem.event_queue ++ event ∷ [] } in
    if not (enabled_in siem.config)
    then (siem, [])
    else if leb (batch_size_of siem.config) (length queued.event_queue)
    then flush_queue posted queued
    else (queued, [])

-- The status of the health check, or none where it fails.
abbrev pub test_connection : Option ℕ → SiemIntegration → Bool
test_connection status siem =
    if enabled_in siem.config && siem.has_client
    then elim status [ none ↦ false | some k ↦ k == 200 ]
    else false

unfoldable pub destroy : Bool → SiemIntegration → SiemIntegration × List SecurityEvent
unfolding flush_queue
destroy posted siem = flush_queue posted (record siem { has_timer = false })
