-- ===== src/EdgeAgent/Relay/Events.antt =====
-- packages/edge-agent/src/telemetry.ts: sequences of events of the relay, and of one of its buffers.
use sandstorm_monorepo.Common.{ℕ, ◌+◌, ◌≡◌, refl, Bool, true, false, List, [], ◌∷◌, ◌++◌}
use sandstorm_monorepo.EdgeAgent.Relay.{
  Buffer, batch_size_or, begin_flush, send, answer, CloudTelemetryRelay, send_status, send_metrics,
  send_logs, flush_all, end_flush_status, end_flush_metrics, end_flush_logs,
}

pub data Event (S M L : Type 0) : Type 0 where
  status_sent : S → Event S M L
  metrics_sent : M → Event S M L
  logs_sent : List L → Event S M L
  interval_passed : Event S M L
  status_answered metrics_answered logs_answered : Bool → ℕ → Event S M L

-- An event of one buffer.
pub data BufferEvent (B : Type 0) : Type 0 where
  sent : List B → BufferEvent B
  flushed : BufferEvent B
  answered : Bool → ℕ → BufferEvent B

module _ {B : Type 0} where
  abbrev pub buffer_step : ℕ → ℕ → BufferEvent B → Buffer B → Buffer B
  buffer_step keep batch (sent xs) b = send batch xs b
  buffer_step keep batch flushed b = begin_flush b
  buffer_step keep batch (answered s k) b = answer keep s k b

  abbrev pub buffer_after : ℕ → ℕ → List (BufferEvent B) → Buffer B → Buffer B
  buffer_after keep batch [] b = b
  buffer_after keep batch (e ∷ es) b = buffer_after keep batch es (buffer_step keep batch e b)

  -- The items that were sent.
  abbrev pub sent_by : List (BufferEvent B) → List B
  sent_by [] = []
  sent_by (sent xs ∷ es) = xs ++ sent_by es
  sent_by (flushed ∷ es) = sent_by es
  sent_by (answered s k ∷ es) = sent_by es

  -- What calls that threw have put back since the last send or flush: at most `keep` items each.
  abbrev pub put_back : ℕ → ℕ → List (BufferEvent B) → ℕ
  put_back keep n [] = n
  put_back keep n (sent xs ∷ es) = put_back keep 0 es
  put_back keep n (flushed ∷ es) = put_back keep 0 es
  put_back keep n (answered true k ∷ es) = put_back keep n es
  put_back keep n (answered false k ∷ es) = put_back keep (n + keep) es

module _ {S M L : Type 0} where
  abbrev pub step : Event S M L → CloudTelemetryRelay S M L → CloudTelemetryRelay S M L
  step (status_sent x) r = send_status x r
  step (metrics_sent x) r = send_metrics x r
  step (logs_sent xs) r = send_logs xs r
  step interval_passed r = flush_all r
  step (status_answered s k) r = end_flush_status s k r
  step (metrics_answered s k) r = end_flush_metrics s k r
  step (logs_answered s k) r = end_flush_logs s k r

  abbrev pub after : List (Event S M L) → CloudTelemetryRelay S M L → CloudTelemetryRelay S M L
  after [] r = r
  after (e ∷ es) r = after es (step e r)

  -- The events of each buffer.
  abbrev pub of_status : List (Event S M L) → List (BufferEvent S)
  of_status [] = []
  of_status (status_sent x ∷ es) = sent (x ∷ []) ∷ of_status es
  of_status (interval_passed ∷ es) = flushed ∷ of_status es
  of_status (status_answered s k ∷ es) = answered s k ∷ of_status es
  of_status (metrics_sent x ∷ es) = of_status es
  of_status (logs_sent xs ∷ es) = of_status es
  of_status (metrics_answered s k ∷ es) = of_status es
  of_status (logs_answered s k ∷ es) = of_status es

  abbrev pub of_metrics : List (Event S M L) → List (BufferEvent M)
  of_metrics [] = []
  of_metrics (metrics_sent x ∷ es) = sent (x ∷ []) ∷ of_metrics es
  of_metrics (interval_passed ∷ es) = flushed ∷ of_metrics es
  of_metrics (metrics_answered s k ∷ es) = answered s k ∷ of_metrics es
  of_metrics (status_sent x ∷ es) = of_metrics es
  of_metrics (logs_sent xs ∷ es) = of_metrics es
  of_metrics (status_answered s k ∷ es) = of_metrics es
  of_metrics (logs_answered s k ∷ es) = of_metrics es

  abbrev pub of_logs : List (Event S M L) → List (BufferEvent L)
  of_logs [] = []
  of_logs (logs_sent xs ∷ es) = sent xs ∷ of_logs es
  of_logs (interval_passed ∷ es) = flushed ∷ of_logs es
  of_logs (logs_answered s k ∷ es) = answered s k ∷ of_logs es
  of_logs (status_sent x ∷ es) = of_logs es
  of_logs (metrics_sent x ∷ es) = of_logs es
  of_logs (status_answered s k ∷ es) = of_logs es
  of_logs (metrics_answered s k ∷ es) = of_logs es

  -- Each buffer follows its own events.
  pub record Follows (es : List (Event S M L)) (r : CloudTelemetryRelay S M L) : Type 0 where
    pub status_follows :
        (after es r).status
        ≡ buffer_after 10 (batch_size_or r.batch_size 10) (of_status es) r.status
    pub metrics_follows :
        (after es r).metrics
        ≡ buffer_after 50 (batch_size_or r.batch_size 50) (of_metrics es) r.metrics
    pub logs_follows :
        (after es r).logs ≡ buffer_after 100 (batch_size_or r.batch_size 100) (of_logs es) r.logs

  pub after-Follows : (es : List (Event S M L)) (r : CloudTelemetryRelay S M L) → Follows es r
  unfolding send_status send_metrics send_logs flush_all end_flush_status end_flush_metrics
      end_flush_logs
  after-Follows [] r = record { status_follows = refl; metrics_follows = refl; logs_follows = refl }
  after-Follows (e ∷ es) r = go e (after-Follows es (step e r))
    where
      go : (e : Event S M L) → Follows es (step e r) → Follows (e ∷ es) r
      go (status_sent x) f = record {
        status_follows = f.status_follows;
        metrics_follows = f.metrics_follows;
        logs_follows = f.logs_follows;
      }
      go (metrics_sent x) f = record {
        status_follows = f.status_follows;
        metrics_follows = f.metrics_follows;
        logs_follows = f.logs_follows;
      }
      go (logs_sent xs) f = record {
        status_follows = f.status_follows;
        metrics_follows = f.metrics_follows;
        logs_follows = f.logs_follows;
      }
      go interval_passed f = record {
        status_follows = f.status_follows;
        metrics_follows = f.metrics_follows;
        logs_follows = f.logs_follows;
      }
      go (status_answered s k) f = record {
        status_follows = f.status_follows;
        metrics_follows = f.metrics_follows;
        logs_follows = f.logs_follows;
      }
      go (metrics_answered s k) f = record {
        status_follows = f.status_follows;
        metrics_follows = f.metrics_follows;
        logs_follows = f.logs_follows;
      }
      go (logs_answered s k) f = record {
        status_follows = f.status_follows;
        metrics_follows = f.metrics_follows;
        logs_follows = f.logs_follows;
      }
