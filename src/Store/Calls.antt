-- ===== src/Store/Calls.antt =====
-- The calls that change the database, and the histories that they make.
pub mod Closed
use durable_work_flow_engine.Prelude.{ℕ, String, ◌≡◌, List, []}
use durable_work_flow_engine.Domain.{RawMessage, Error}
use durable_work_flow_engine.Db.{World}
use durable_work_flow_engine.Db.Rows.{Database}
use durable_work_flow_engine.Store.Attempts.{
  start_task_attempt, complete_task_attempt, complete_task_attempt_and_enqueue_next_task,
  schedule_task_retry, fail_task_attempt,
}
use durable_work_flow_engine.Store.Executions.{
  create_workflow_definition, create_execution_and_task, replay_dead_lettered_task,
}
use durable_work_flow_engine.Store.Outbox.{
  enqueue_due_task_retries, mark_outbox_dispatched, record_outbox_failure,
}
use durable_work_flow_engine.Store.Idempotency.{
  begin_idempotent_task, complete_idempotent_task, release_idempotent_task,
}

-- A call of a method of `Store` that writes, with its arguments.
pub data Call : Type 0 where
  create_definition : (name description : String) → RawMessage → Call
  create_execution : (definition_id : String) → RawMessage → (task_name handler_key : String) → Call
  replay : (task_id : String) → Call
  start : (task_id : String) → Call
  complete : (task_id attempt_id : String) → RawMessage → Call
  advance : (task_id attempt_id next_name next_key : String) → RawMessage → Call
  retry : (task_id attempt_id : String) → List ℕ → ℕ → Call
  fail : (task_id attempt_id : String) → List ℕ → Call
  enqueue_due : ℕ → Call
  mark_dispatched : (event_id : String) → Call
  record_failure : (event_id : String) → Error → Call
  begin_key : (handler_key key owner : String) → Call
  complete_key : (handler_key key owner : String) → RawMessage → Call
  release_key : (handler_key key owner : String) → Call

-- The database after the call, whether it succeeds or fails.
unfoldable pub after_call : Call → World → Database
after_call (create_definition name description definition) w =
    (create_workflow_definition name description definition w).1.db
after_call (create_execution definition_id input task_name handler_key) w =
    (create_execution_and_task definition_id input task_name handler_key w).1.db
after_call (replay task_id) w = (replay_dead_lettered_task task_id w).1.db
after_call (start task_id) w = (start_task_attempt task_id w).1.db
after_call (complete task_id attempt_id output) w =
    (complete_task_attempt task_id attempt_id output w).1.db
after_call (advance task_id attempt_id name key output) w =
    (complete_task_attempt_and_enqueue_next_task task_id attempt_id name key output w).1.db
after_call (retry task_id attempt_id text at) w =
    (schedule_task_retry task_id attempt_id text at w).1.db
after_call (fail task_id attempt_id text) w = (fail_task_attempt task_id attempt_id text w).1.db
after_call (enqueue_due limit) w = (enqueue_due_task_retries limit w).1.db
after_call (mark_dispatched id) w = (mark_outbox_dispatched id w).1.db
after_call (record_failure id e) w = (record_outbox_failure id e w).1.db
after_call (begin_key h key owner) w = (begin_idempotent_task h key owner w).1.db
after_call (complete_key h key owner response) w =
    (complete_idempotent_task h key owner response w).1.db
after_call (release_key h key owner) w = (release_idempotent_task h key owner w).1.db

abbrev pub empty_database : Database
empty_database = record {
  workflow_definitions = [];
  workflow_executions = [];
  task_instances = [];
  task_attempts = [];
  outbox_events = [];
  idempotency_records = [];
}

-- The databases that come about from the empty one by calls of any clients in any order, each in a
-- world of its own: with any clock, any generated ids and any faults.
pub data Reachable : Database → Type 0 where
  here : {db : Database} → db ≡ empty_database → Reachable db
  next :
      {old db : Database}
      → Reachable old
      → (c : Call) (w : World) → w.db ≡ old
      → db ≡ after_call c w
      → Reachable db
