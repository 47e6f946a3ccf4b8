-- ===== src/Store/Consistency/Additions.antt =====
-- That each row which is added to a table keeps the consistency of the database.
use durable_work_flow_engine.Prelude.{
  refl, Option, none, some, List, ◌++◌, String, ◌≡◌, ◌∙◌, true, false, ◌&&◌, [], ◌∷◌, arith, ◌==◌,
  eq_iff, ap₂, any, All-map, All-append, any-append, any-false, Distinct-append,
}
use durable_work_flow_engine.Db.Rows.{
  Database, WorkflowDefinitionRow, TaskRow, ExecutionRow, AttemptRow, OutboxRow, IdempotencyRow,
}
use durable_work_flow_engine.Store.Sql.{has_execution, has_task, has_task_key, add_task, add_event}
use durable_work_flow_engine.Store.Attempts.{add_attempt}
use durable_work_flow_engine.Store.Executions.{add_definition, add_execution}
use durable_work_flow_engine.Store.Idempotency.{has_key, add_record}
use durable_work_flow_engine.Store.Consistency.Rows.{TaskIsSane, ExecutionIsSane, AttemptIsSane}
use durable_work_flow_engine.Store.Consistency.Invariant.{IsConsistent, has_owner}

eq_sym : (a b : String) → (a == b) ≡ (b == a)
eq_sym a b = ground (arith, eq_iff a b, eq_iff b a)

has_key_sym :
    (q r : IdempotencyRow)
    → has_key q.handler_key q.idempotency_key r ≡ has_key r.handler_key r.idempotency_key q
has_key_sym q r =
    ap₂ ◌&&◌ (eq_sym r.handler_key q.handler_key) (eq_sym r.idempotency_key q.idempotency_key)

-- A new task takes no record from its owner.
has_owner-append :
    (tasks : List TaskRow) (row : TaskRow) (owner : Option String)
    → has_owner tasks owner ≡ true
    → has_owner (tasks ++ row ∷ []) owner ≡ true
has_owner-append tasks row none h = refl
has_owner-append tasks row (some owner) h = any-append (λ t. t.id == owner) tasks (row ∷ []) h

-- The fields of the database that a change leaves alone keep their part of the consistency.
module _ (db : Database) (c : IsConsistent db) where
  pub add_event-IsConsistent :
      (row : OutboxRow)
      → any (λ e. e.id == row.id) db.outbox_events ≡ false
      → IsConsistent (add_event row db)
  add_event-IsConsistent row fresh = record {
    definition_ids = c.definition_ids;
    definition_names = c.definition_names;
    execution_ids = c.execution_ids;
    task_ids = c.task_ids;
    task_keys = c.task_keys;
    attempt_ids = c.attempt_ids;
    event_ids = Distinct-append _ db.outbox_events row c.event_ids (
        All-map db.outbox_events (λ e h. eq_sym row.id e.id ∙ h)
          (any-false _ db.outbox_events fresh));
    record_keys = c.record_keys;
    execution_definitions = c.execution_definitions;
    task_executions = c.task_executions;
    attempt_tasks = c.attempt_tasks;
    record_owners = c.record_owners;
    sane_tasks = c.sane_tasks;
    sane_executions = c.sane_executions;
    sane_attempts = c.sane_attempts;
  }

  pub add_attempt-IsConsistent :
      (row : AttemptRow)
      → any (λ a. a.id == row.id) db.task_attempts ≡ false
      → has_task row.task_instance_id db ≡ true
      → AttemptIsSane row
      → IsConsistent (add_attempt row db)
  add_attempt-IsConsistent row fresh there sane = record {
    definition_ids = c.definition_ids;
    definition_names = c.definition_names;
    execution_ids = c.execution_ids;
    task_ids = c.task_ids;
    task_keys = c.task_keys;
    attempt_ids = Distinct-append _ db.task_attempts row c.attempt_ids (
        All-map db.task_attempts (λ e h. eq_sym row.id e.id ∙ h)
          (any-false _ db.task_attempts fresh));
    event_ids = c.event_ids;
    record_keys = c.record_keys;
    execution_definitions = c.execution_definitions;
    task_executions = c.task_executions;
    attempt_tasks = All-append _ db.task_attempts (row ∷ []) c.attempt_tasks (there, tt);
    record_owners = c.record_owners;
    sane_tasks = c.sane_tasks;
    sane_executions = c.sane_executions;
    sane_attempts = All-append _ db.task_attempts (row ∷ []) c.sane_attempts (sane, tt);
  }

  pub add_task-IsConsistent :
      (row : TaskRow)
      → has_task row.id db ≡ false
      → has_task_key row.idempotency_key db ≡ false
      → has_execution row.workflow_execution_id db ≡ true
      → TaskIsSane row
      → IsConsistent (add_task row db)
  add_task-IsConsistent row fresh fresh_key there sane = record {
    definition_ids = c.definition_ids;
    definition_names = c.definition_names;
    execution_ids = c.execution_ids;
    task_ids = Distinct-append _ db.task_instances row c.task_ids (
        All-map db.task_instances (λ e h. eq_sym row.id e.id ∙ h)
          (any-false _ db.task_instances fresh));
    task_keys = Distinct-append _ db.task_instances row c.task_keys (
        All-map db.task_instances (λ e h. eq_sym row.idempotency_key e.idempotency_key ∙ h)
          (any-false _ db.task_instances fresh_key));
    attempt_ids = c.attempt_ids;
    event_ids = c.event_ids;
    record_keys = c.record_keys;
    execution_definitions = c.execution_definitions;
    task_executions = All-append _ db.task_instances (row ∷ []) c.task_executions (there, tt);
    attempt_tasks =
        All-map db.task_attempts
          (λ a h. any-append (λ t. t.id == a.task_instance_id) db.task_instances (row ∷ []) h)
          c.attempt_tasks;
    record_owners =
        All-map db.idempotency_records
          (λ r h. has_owner-append db.task_instances row r.owner_task_instance_id h)
          c.record_owners;
    sane_tasks = All-append _ db.task_instances (row ∷ []) c.sane_tasks (sane, tt);
    sane_executions = c.sane_executions;
    sane_attempts = c.sane_attempts;
  }

  pub add_execution-IsConsistent :
      (row : ExecutionRow)
      → any (λ e. e.id == row.id) db.workflow_executions ≡ false
      → any (λ d. d.id == row.workflow_definition_id) db.workflow_definitions ≡ true
      → ExecutionIsSane row
      → IsConsistent (add_execution row db)
  add_execution-IsConsistent row fresh there sane = record {
    definition_ids = c.definition_ids;
    definition_names = c.definition_names;
    execution_ids = Distinct-append _ db.workflow_executions row c.execution_ids (
        All-map db.workflow_executions (λ e h. eq_sym row.id e.id ∙ h)
          (any-false _ db.workflow_executions fresh));
    task_ids = c.task_ids;
    task_keys = c.task_keys;
    attempt_ids = c.attempt_ids;
    event_ids = c.event_ids;
    record_keys = c.record_keys;
    execution_definitions =
        All-append _ db.workflow_executions (row ∷ []) c.execution_definitions (there, tt);
    task_executions =
        All-map db.task_instances
          (λ t h.
            any-append (λ e. e.id == t.workflow_execution_id) db.workflow_executions (row ∷ []) h)
          c.task_executions;
    attempt_tasks = c.attempt_tasks;
    record_owners = c.record_owners;
    sane_tasks = c.sane_tasks;
    sane_executions = All-append _ db.workflow_executions (row ∷ []) c.sane_executions (sane, tt);
    sane_attempts = c.sane_attempts;
  }

  pub add_definition-IsConsistent :
      (row : WorkflowDefinitionRow)
      → any (λ d. d.id == row.id) db.workflow_definitions ≡ false
      → any (λ d. d.name == row.name) db.workflow_definitions ≡ false
      → IsConsistent (add_definition row db)
  add_definition-IsConsistent row fresh fresh_name = record {
    definition_ids = Distinct-append _ db.workflow_definitions row c.definition_ids (
        All-map db.workflow_definitions (λ e h. eq_sym row.id e.id ∙ h)
          (any-false _ db.workflow_definitions fresh));
    definition_names = Distinct-append _ db.workflow_definitions row c.definition_names (
        All-map db.workflow_definitions (λ e h. eq_sym row.name e.name ∙ h)
          (any-false _ db.workflow_definitions fresh_name));
    execution_ids = c.execution_ids;
    task_ids = c.task_ids;
    task_keys = c.task_keys;
    attempt_ids = c.attempt_ids;
    event_ids = c.event_ids;
    record_keys = c.record_keys;
    execution_definitions =
        All-map db.workflow_executions
          (λ e h.
            any-append (λ d. d.id == e.workflow_definition_id) db.workflow_definitions (row ∷ []) h)
          c.execution_definitions;
    task_executions = c.task_executions;
    attempt_tasks = c.attempt_tasks;
    record_owners = c.record_owners;
    sane_tasks = c.sane_tasks;
    sane_executions = c.sane_executions;
    sane_attempts = c.sane_attempts;
  }

  pub add_record-IsConsistent :
      (row : IdempotencyRow)
      → any (has_key row.handler_key row.idempotency_key) db.idempotency_records ≡ false
      → has_owner db.task_instances row.owner_task_instance_id ≡ true
      → IsConsistent (add_record row db)
  add_record-IsConsistent row fresh there = record {
    definition_ids = c.definition_ids;
    definition_names = c.definition_names;
    execution_ids = c.execution_ids;
    task_ids = c.task_ids;
    task_keys = c.task_keys;
    attempt_ids = c.attempt_ids;
    event_ids = c.event_ids;
    record_keys = Distinct-append _ db.idempotency_records row c.record_keys (
        All-map db.idempotency_records (λ r h. has_key_sym r row ∙ h)
          (any-false _ db.idempotency_records fresh));
    execution_definitions = c.execution_definitions;
    task_executions = c.task_executions;
    attempt_tasks = c.attempt_tasks;
    record_owners = All-append _ db.idempotency_records (row ∷ []) c.record_owners (there, tt);
    sane_tasks = c.sane_tasks;
    sane_executions = c.sane_executions;
    sane_attempts = c.sane_attempts;
  }
