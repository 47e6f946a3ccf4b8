-- ===== src/Tests/Publishers.antt =====
-- The theorem on a round of the publisher at the database after one execution was started.
use durable_work_flow_engine.Prelude.{arith, List, ◌∷◌, ◌≡◌, refl, inl, All, []}
use durable_work_flow_engine.Db.{scan_outbox_event, scan_workflow_execution, scan_task_instance}
use durable_work_flow_engine.Db.Exec.{statement, transaction}
use durable_work_flow_engine.Store.Sql.{
  insert_task, insert_outbox_event, make_task_idempotency_key, normalize_json,
}
use durable_work_flow_engine.Store.Executions.{
  create_workflow_definition, create_execution_and_task, insert_execution,
}
use durable_work_flow_engine.Store.Calls.{after_call}
use durable_work_flow_engine.Store.Consistency.{Reachable-IsConsistent}
use durable_work_flow_engine.Publisher.{publish_once, publish_events}
use durable_work_flow_engine.Publisher.Liveness.{Decodes, IsPublished, publish_events-IsPublished}
use durable_work_flow_engine.Domain.{OutboxEvent, ok, unmarshal-marshal_payload}
use durable_work_flow_engine.Publisher.Delivery.{IsDelivered}
use durable_work_flow_engine.Publisher.Round.{publish_once-IsDelivered}
use durable_work_flow_engine.Tests.Data.{
  payload, waiting_event, with_event, world_on, second_db, second_db-Reachable,
}

second_db-IsDelivered : All (IsDelivered []) second_db.outbox_events
unfolding after_call create_workflow_definition create_execution_and_task insert_execution
    insert_task insert_outbox_event make_task_idempotency_key normalize_json scan_workflow_execution
    scan_task_instance statement transaction
second_db-IsDelivered = (inl refl, tt)

publish_once-IsDelivered_example :
    All
      (IsDelivered (publish_once (world_on second_db)).1.stream)
      (publish_once (world_on second_db)).1.db.outbox_events
publish_once-IsDelivered_example =
    publish_once-IsDelivered (world_on second_db) (Reachable-IsConsistent second_db-Reachable)
      second_db-IsDelivered

abbrev batch : List OutboxEvent
batch = scan_outbox_event waiting_event ∷ []

batch-Decodes : All Decodes batch
unfolding scan_outbox_event
batch-Decodes = ((payload, unmarshal-marshal_payload payload), tt)

publish_events-IsPublished_example :
    ((publish_events batch (world_on with_event)).0 ≡ ok tt)
    × All (λ e. IsPublished e (publish_events batch (world_on with_event)).1) batch
publish_events-IsPublished_example =
    publish_events-IsPublished batch (world_on with_event) (λ n. refl) batch-Decodes
      (omega arith, tt)
