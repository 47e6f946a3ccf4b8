-- ===== src/Publisher.antt =====
-- internal/outbox/publisher.go: one round of the publisher.
pub mod Loop
pub mod Pending
pub mod Delivery
pub mod Round
pub mod Stream
pub mod Liveness
use durable_work_flow_engine.Prelude.{
  ℕ, String, Bool, true, false, Option, none, some, List, [], ◌∷◌, ◌++◌, if◌then◌else◌, ◌==◌,
}
use durable_work_flow_engine.Domain.{
  RawMessage, Error, Result, ok, err, OutboxEvent, DispatchTaskPayload, TaskMessage,
  unmarshal_payload,
}
use durable_work_flow_engine.Queue.{message_of, dispatch_task}
use durable_work_flow_engine.Db.{World}
use durable_work_flow_engine.Db.Exec.{Exec, pure, statement, ◌>>=◌, ◌>>◌}
use durable_work_flow_engine.Store.Outbox.{
  enqueue_due_task_retries, list_pending_outbox, mark_outbox_dispatched, record_outbox_failure,
}

-- `_ = p.store.RecordOutboxFailure(...)` and `continue`
abbrev pub give_up : String → Error → Exec (Unit {0})
give_up id e w = let (ignored, w') = record_outbox_failure id e w in (ok tt, w')

abbrev pub after_dispatch : String → Result (Unit {0}) → Exec (Unit {0})
after_dispatch id (err e) = give_up id e
after_dispatch id (ok u) = mark_outbox_dispatched id

abbrev pub after_decode : String → Result DispatchTaskPayload → Exec (Unit {0})
after_decode id (err e) w = give_up id e w
after_decode id (ok payload) w =
    let (r, w') = dispatch_task (message_of payload) w in after_dispatch id r w'

-- One round of the loop over the events: an error ends the loop.
unfoldable pub publish_event : OutboxEvent → Exec (Unit {0})
publish_event event = after_decode event.id (unmarshal_payload event.payload_json)

unfoldable pub publish_events : List OutboxEvent → Exec (Unit {0})
publish_events [] = pure tt
publish_events (event ∷ events) = do publish_event event; publish_events events

unfoldable pub publish_once : Exec (Unit {0})
publish_once = do
  retry_count ← enqueue_due_task_retries 20
  events ← list_pending_outbox 20
  publish_events events
