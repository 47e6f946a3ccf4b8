-- ===== src/Tests/Handling.antt =====
-- A handler that is called twice for one task.
use durable_work_flow_engine.Prelude.{ℕ, ◌≡◌, refl, true}
use durable_work_flow_engine.Domain.{document, Json, str, ok, TaskInstance}
use durable_work_flow_engine.Db.{World, scan_workflow_execution, scan_task_instance}
use durable_work_flow_engine.Db.Exec.{transaction, statement}
use durable_work_flow_engine.Store.Sql.{
  insert_task, insert_outbox_event, make_task_idempotency_key, normalize_json,
}
use durable_work_flow_engine.Store.Executions.{
  create_workflow_definition, create_execution_and_task, insert_execution,
}
use durable_work_flow_engine.Store.Calls.{after_call}
use durable_work_flow_engine.Store.Consistency.{Reachable-IsConsistent}
use durable_work_flow_engine.Store.Idempotency.{
  begin_idempotent_task, try_insert_record, complete_idempotent_task, update_record,
}
use durable_work_flow_engine.Handlers.{
  Library, handle_idempotently, after_begin, process_input, decode_input,
}
use durable_work_flow_engine.Handlers.Replay.{handle_twice}
use durable_work_flow_engine.Tests.Data.{world_on, second_db, second_db-Reachable, pending_task}

abbrev plain_library : Library
plain_library = record { reencode = λ fs. ok fs; rfc3339 = λ n. "2024-01-01T00:00:00Z" }

abbrev task : TaskInstance
task = scan_task_instance (record pending_task { id = "xid" })

abbrev respond : TaskInstance → Json → ℕ → Json
respond t input clock = str "done"

abbrev first_world : World
first_world =
    (handle_idempotently plain_library "sample.echo" "no store" true respond task
      (world_on second_db)).1

answered :
    handle_idempotently plain_library "sample.echo" "no store" true respond task
      (world_on second_db)
    ≡ (ok (document (str "done")), first_world)
unfolding handle_idempotently after_begin process_input decode_input begin_idempotent_task
    try_insert_record complete_idempotent_task update_record statement normalize_json
    scan_task_instance scan_workflow_execution after_call create_workflow_definition
    create_execution_and_task insert_execution insert_task insert_outbox_event transaction
    make_task_idempotency_key
answered = refl

handle_twice_example :
    ((handle_idempotently plain_library "sample.echo" "no store" true respond task
        (world_on first_world.db)).0
      ≡ ok (document (str "done")))
    × ((handle_idempotently plain_library "sample.echo" "no store" true respond task
          (world_on first_world.db)).1.db
        ≡ first_world.db)
handle_twice_example =
    handle_twice plain_library "sample.echo" "no store" respond task task (document (str "done"))
      (world_on second_db) first_world (world_on first_world.db)
      (Reachable-IsConsistent second_db-Reachable) answered refl refl (refl, refl)
