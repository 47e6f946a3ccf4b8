-- ===== src/Tests/Data.antt =====
-- The worlds and rows of the tests.
use durable_work_flow_engine.Prelude.{refl, ℕ, zero, suc, String, List, [], ◌∷◌, pos}
use durable_work_flow_engine.Domain.{
  ◌<>◌, empty, document, Json, str, num, arr, obj, nil, cons, end, field, integer, TaskStatus,
  TaskMessage, DispatchTaskPayload, WorkflowTaskSpec, WorkflowDefinitionSpec,
}
use durable_work_flow_engine.Db.{World, fine}
use durable_work_flow_engine.Db.Rows.{Database, TaskRow, OutboxRow}
use durable_work_flow_engine.Store.Sql.{new_task, new_outbox_event}
use durable_work_flow_engine.Store.Calls.{
  after_call, create_definition, create_execution, here, next, Reachable, empty_database,
}

abbrev ids : ℕ → String
ids zero = "id"
ids (suc n) = "x" <> ids n

-- A world without faults.
abbrev pub world_on : Database → World
world_on db = record {
  db = db;
  stream = [];
  acked = [];
  clock = 1000;
  uuids = ids;
  drawn = 0;
  faults = λ n. fine;
  calls = 0;
}

abbrev pub two_tasks_json : Json
two_tasks_json = obj (
    field "entry_task" (str "pick") (
      field "tasks"
        (arr (
          cons
            (obj (
              field "name" (str "pick") (
                field "handler_key" (str "sample.echo") (
                  field "max_attempts" (num (integer (pos 3)))
                    (field "next_task" (str "pack") end)))))
            (cons
              (obj (field "name" (str "pack") (field "handler_key" (str "notification.send") end)))
              nil)))
        end))

abbrev pub pick : WorkflowTaskSpec
pick = record {
  name = "pick";
  handler_key = "sample.echo";
  max_attempts = pos 3;
  backoff_seconds = pos 0;
  next_task = "pack";
}

abbrev pub pack : WorkflowTaskSpec
pack = record {
  name = "pack";
  handler_key = "notification.send";
  max_attempts = pos 0;
  backoff_seconds = pos 0;
  next_task = "";
}

abbrev pub two_tasks : WorkflowDefinitionSpec
two_tasks = record { entry_task = "pick"; tasks = pick ∷ pack ∷ [] }

abbrev pub pending_task : TaskRow
pending_task = new_task "t1" "e1" "pick" "sample.echo" (obj end) 900

abbrev pub done_task : TaskRow
done_task = record pending_task { status = TaskStatus.succeeded }

-- The task that comes next in the execution is already there.
abbrev pub later_task : TaskRow
later_task = new_task "t2" "e1" "pack" "notification.send" (obj end) 950

abbrev pub with_tasks : List TaskRow → Database
with_tasks tasks = record empty_database { task_instances = tasks }

abbrev pub message : TaskMessage
message = record { task_id = "t1"; execution_id = "e1"; handler_key = "sample.echo" }

abbrev pub payload : DispatchTaskPayload
payload = record { task_id = "t1"; execution_id = "e1"; handler_key = "sample.echo" }

abbrev pub waiting_event : OutboxRow
waiting_event = new_outbox_event "o1" payload 900

abbrev pub with_event : Database
with_event = record empty_database { outbox_events = waiting_event ∷ [] }

abbrev pub first_db : Database
first_db =
    after_call (create_definition "packing" "" (document two_tasks_json)) (world_on empty_database)

abbrev pub second_db : Database
second_db = after_call (create_execution "id" empty "pick" "sample.echo") (world_on first_db)

pub second_db-Reachable : Reachable second_db
second_db-Reachable =
    next
      (next (here refl) (create_definition "packing" "" (document two_tasks_json))
        (world_on empty_database) refl refl)
      (create_execution "id" empty "pick" "sample.echo") (world_on first_db) refl refl
