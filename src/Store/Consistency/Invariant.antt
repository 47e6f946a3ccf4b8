-- ===== src/Store/Consistency/Invariant.antt =====
-- The consistency of the database.
use durable_work_flow_engine.Prelude.{
  String, ◌≡◌, Bool, true, Option, none, some, List, ◌==◌, any, All, Distinct,
}
use durable_work_flow_engine.Db.Rows.{Database, TaskRow}
use durable_work_flow_engine.Store.Sql.{has_execution, has_task}
use durable_work_flow_engine.Store.Idempotency.{has_key}
use durable_work_flow_engine.Store.Consistency.Rows.{TaskIsSane, ExecutionIsSane, AttemptIsSane}

-- The owner of a record, where it has one, is a task.
abbrev pub has_owner : List TaskRow → Option String → Bool
has_owner tasks none = true
has_owner tasks (some owner) = any (λ t. t.id == owner) tasks

-- Primary keys and unique keys are distinct, foreign keys refer to rows that are there, and every
-- row is sane.
pub record IsConsistent (db : Database) : Type 0 where
  pub definition_ids : Distinct (λ d e. e.id == d.id) db.workflow_definitions
  pub definition_names : Distinct (λ d e. e.name == d.name) db.workflow_definitions
  pub execution_ids : Distinct (λ d e. e.id == d.id) db.workflow_executions
  pub task_ids : Distinct (λ s t. t.id == s.id) db.task_instances
  pub task_keys : Distinct (λ s t. t.idempotency_key == s.idempotency_key) db.task_instances
  pub attempt_ids : Distinct (λ a b. b.id == a.id) db.task_attempts
  pub event_ids : Distinct (λ d e. e.id == d.id) db.outbox_events
  pub record_keys :
      Distinct (λ q r. has_key q.handler_key q.idempotency_key r) db.idempotency_records
  pub execution_definitions :
      All
        (λ e. any (λ d. d.id == e.workflow_definition_id) db.workflow_definitions ≡ true)
        db.workflow_executions
  pub task_executions : All (λ t. has_execution t.workflow_execution_id db ≡ true) db.task_instances
  pub attempt_tasks : All (λ a. has_task a.task_instance_id db ≡ true) db.task_attempts
  pub record_owners :
      All (λ r. has_owner db.task_instances r.owner_task_instance_id ≡ true) db.idempotency_records
  pub sane_tasks : All TaskIsSane db.task_instances
  pub sane_executions : All ExecutionIsSane db.workflow_executions
  pub sane_attempts : All AttemptIsSane db.task_attempts
