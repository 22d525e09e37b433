-- ===== src/Worker.antt =====
-- startEventConsumer of internal/apps/worker/worker.go, and internal/domain/event.go: the handler of
-- account events under the Kafka consumer. The counter of the metrics is a parameter; the log line
-- is left out. The hooks of the worker are in Process, runHousekeeping is in Lock.
pub mod Events
use go_clean_arch_template.Prelude.{ℕ, String}
use go_clean_arch_template.Effect.{Result, M, pure}
use go_clean_arch_template.Consumer.{Reader, Consumer}

-- AccountEventType
abbrev pub AccountEventType : Type 0
AccountEventType = String

abbrev pub account_event_created : AccountEventType
account_event_created = "account.created"

abbrev pub account_event_updated : AccountEventType
account_event_updated = "account.updated"

abbrev pub account_event_deleted : AccountEventType
account_event_deleted = "account.deleted"

-- AccountEvent; `kind` is its Type
pub record AccountEvent : Type 0 where
  pub kind : AccountEventType
  pub account_id : String
  pub occurred_at : ℕ

module _ {S : Type 0} (inc : (worker result : String) → S → S) where
  -- the handler of startEventConsumer; `inc` is WorkerRuns.WithLabelValues(...).Inc
  unfoldable pub handle_event : AccountEvent → M S (Unit {0})
  handle_event evt s = pure tt (inc "event" evt.kind s)

  -- the consumer of startEventConsumer
  abbrev pub event_consumer :
      Reader S → (unmarshal : String → Result AccountEvent) → Consumer S AccountEvent
  event_consumer reader unmarshal = record {
    reader = reader;
    unmarshal = unmarshal;
    handle = handle_event;
  }
