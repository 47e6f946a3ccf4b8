-- ===== src/Store/Consistency/Tables.antt =====
-- That each change of rows and each deletion keeps the consistency of the database.
use durable_work_flow_engine.Prelude.{
  String, ◌≡◌, refl, ap, ◌∙◌, Bool, true, Option, none, some, List, update_where, ◌&&◌, ◌==◌, ap₂,
  any, All-map, All-update_where, any-update_where, Distinct-update_where, Distinct-filter,
  All-filter, not,
}
use durable_work_flow_engine.Db.Rows.{
  Database, TaskRow, ExecutionRow, AttemptRow, OutboxRow, IdempotencyRow,
}
use durable_work_flow_engine.Store.Sql.{
  has_execution, has_task, set_task, set_execution, set_attempt,
}
use durable_work_flow_engine.Store.Outbox.{set_event}
use durable_work_flow_engine.Store.Idempotency.{has_key, set_record, delete_records}
use durable_work_flow_engine.Store.Consistency.Keeps.{KeepsTask, KeepsExecution, KeepsAttempt}
use durable_work_flow_engine.Store.Consistency.Invariant.{IsConsistent, has_owner}

-- A task that is changed without its id stays the owner of its records.
has_owner-update_where :
    (id : String) (f : TaskRow → TaskRow)
    → ((t : TaskRow) → (f t).id ≡ t.id)
    → (tasks : List TaskRow) (owner : Option String) → has_owner tasks owner ≡ true
    → has_owner (update_where (λ t. t.id == id) f tasks) owner ≡ true
has_owner-update_where id f keep tasks none h = refl
has_owner-update_where id f keep tasks (some owner) h =
    any-update_where (λ t. t.id == owner) (λ t. t.id == id) f tasks
      (λ t. ap (λ z. z == owner) (keep t))
    ∙ h

-- The fields of the database that a change leaves alone keep their part of the consistency.
module _ (db : Database) (c : IsConsistent db) where
  pub set_task-IsConsistent :
      (id : String) (f : TaskRow → TaskRow) → KeepsTask f → IsConsistent (set_task id f db)
  set_task-IsConsistent id f k = record {
    definition_ids = c.definition_ids;
    definition_names = c.definition_names;
    execution_ids = c.execution_ids;
    task_ids =
        Distinct-update_where _ _ f db.task_instances (λ x y. ap (λ z. y.id == z) (k.id x))
          (λ x y. ap (λ z. z == x.id) (k.id y)) c.task_ids;
    task_keys =
        Distinct-update_where _ _ f db.task_instances
          (λ x y. ap (λ z. y.idempotency_key == z) (k.key x))
          (λ x y. ap (λ z. z == x.idempotency_key) (k.key y)) c.task_keys;
    attempt_ids = c.attempt_ids;
    event_ids = c.event_ids;
    record_keys = c.record_keys;
    execution_definitions = c.execution_definitions;
    task_executions =
        All-update_where _ f db.task_instances (λ t h. h)
          (λ t h. ap (λ z. has_execution z db) (k.execution t) ∙ h) c.task_executions;
    attempt_tasks =
        All-map db.task_attempts
          (λ a h.
            any-update_where (λ t. t.id == a.task_instance_id) (λ t. t.id == id) f db.task_instances
              (λ t. ap (λ z. z == a.task_instance_id) (k.id t))
            ∙ h)
          c.attempt_tasks;
    record_owners =
        All-map db.idempotency_records
          (λ r h. has_owner-update_where id f k.id db.task_instances r.owner_task_instance_id h)
          c.record_owners;
    sane_tasks = All-update_where _ f db.task_instances (λ t h. h) k.sane c.sane_tasks;
    sane_executions = c.sane_executions;
    sane_attempts = c.sane_attempts;
  }

  pub set_execution-IsConsistent :
      (id : String) (f : ExecutionRow → ExecutionRow)
      → KeepsExecution f
      → IsConsistent (set_execution id f db)
  set_execution-IsConsistent id f k = record {
    definition_ids = c.definition_ids;
    definition_names = c.definition_names;
    execution_ids =
        Distinct-update_where _ _ f db.workflow_executions (λ x y. ap (λ z. y.id == z) (k.id x))
          (λ x y. ap (λ z. z == x.id) (k.id y)) c.execution_ids;
    task_ids = c.task_ids;
    task_keys = c.task_keys;
    attempt_ids = c.attempt_ids;
    event_ids = c.event_ids;
    record_keys = c.record_keys;
    execution_definitions =
        All-update_where _ f db.workflow_executions (λ e h. h)
          (λ e h. ap (λ z. any (λ d. d.id == z) db.workflow_definitions) (k.definition e) ∙ h)
          c.execution_definitions;
    task_executions =
        All-map db.task_instances
          (λ t h.
            any-update_where (λ e. e.id == t.workflow_execution_id) (λ e. e.id == id) f
              db.workflow_executions (λ e. ap (λ z. z == t.workflow_execution_id) (k.id e))
            ∙ h)
          c.task_executions;
    attempt_tasks = c.attempt_tasks;
    record_owners = c.record_owners;
    sane_tasks = c.sane_tasks;
    sane_executions =
        All-update_where _ f db.workflow_executions (λ e h. h) (λ e h. k.sane e) c.sane_executions;
    sane_attempts = c.sane_attempts;
  }

  pub set_attempt-IsConsistent :
      (id : String) (f : AttemptRow → AttemptRow)
      → KeepsAttempt f
      → IsConsistent (set_attempt id f db)
  set_attempt-IsConsistent id f k = record {
    definition_ids = c.definition_ids;
    definition_names = c.definition_names;
    execution_ids = c.execution_ids;
    task_ids = c.task_ids;
    task_keys = c.task_keys;
    attempt_ids =
        Distinct-update_where _ _ f db.task_attempts (λ x y. ap (λ z. y.id == z) (k.id x))
          (λ x y. ap (λ z. z == x.id) (k.id y)) c.attempt_ids;
    event_ids = c.event_ids;
    record_keys = c.record_keys;
    execution_definitions = c.execution_definitions;
    task_executions = c.task_executions;
    attempt_tasks =
        All-update_where _ f db.task_attempts (λ a h. h)
          (λ a h. ap (λ z. has_task z db) (k.task a) ∙ h) c.attempt_tasks;
    record_owners = c.record_owners;
    sane_tasks = c.sane_tasks;
    sane_executions = c.sane_executions;
    sane_attempts =
        All-update_where _ f db.task_attempts (λ a h. h) (λ a h. k.sane a) c.sane_attempts;
  }

  pub set_event-IsConsistent :
      (id : String) (f : OutboxRow → OutboxRow)
      → ((e : OutboxRow) → (f e).id ≡ e.id)
      → IsConsistent (set_event id f db)
  set_event-IsConsistent id f keep_id = record {
    definition_ids = c.definition_ids;
    definition_names = c.definition_names;
    execution_ids = c.execution_ids;
    task_ids = c.task_ids;
    task_keys = c.task_keys;
    attempt_ids = c.attempt_ids;
    event_ids =
        Distinct-update_where _ _ f db.outbox_events (λ x y. ap (λ z. y.id == z) (keep_id x))
          (λ x y. ap (λ z. z == x.id) (keep_id y)) c.event_ids;
    record_keys = c.record_keys;
    execution_definitions = c.execution_definitions;
    task_executions = c.task_executions;
    attempt_tasks = c.attempt_tasks;
    record_owners = c.record_owners;
    sane_tasks = c.sane_tasks;
    sane_executions = c.sane_executions;
    sane_attempts = c.sane_attempts;
  }

  pub set_record-IsConsistent :
      (p : IdempotencyRow → Bool) (f : IdempotencyRow → IdempotencyRow)
      → ((r : IdempotencyRow) → (f r).handler_key ≡ r.handler_key)
      → ((r : IdempotencyRow) → (f r).idempotency_key ≡ r.idempotency_key)
      → ((r : IdempotencyRow) → (f r).owner_task_instance_id ≡ r.owner_task_instance_id)
      → IsConsistent (set_record p f db)
  set_record-IsConsistent p f keep_handler keep_key keep_owner = record {
    definition_ids = c.definition_ids;
    definition_names = c.definition_names;
    execution_ids = c.execution_ids;
    task_ids = c.task_ids;
    task_keys = c.task_keys;
    attempt_ids = c.attempt_ids;
    event_ids = c.event_ids;
    record_keys =
        Distinct-update_where _ p f db.idempotency_records
          (λ q r. ap₂ (λ x y. has_key x y r) (keep_handler q) (keep_key q))
          (λ q r.
            ap₂ (λ x y. (x == q.handler_key) && (y == q.idempotency_key)) (keep_handler r)
              (keep_key r))
          c.record_keys;
    execution_definitions = c.execution_definitions;
    task_executions = c.task_executions;
    attempt_tasks = c.attempt_tasks;
    record_owners =
        All-update_where p f db.idempotency_records (λ r h. h)
          (λ r h. ap (has_owner db.task_instances) (keep_owner r) ∙ h) c.record_owners;
    sane_tasks = c.sane_tasks;
    sane_executions = c.sane_executions;
    sane_attempts = c.sane_attempts;
  }

  pub delete_records-IsConsistent : (p : IdempotencyRow → Bool) → IsConsistent (delete_records p db)
  delete_records-IsConsistent p = record {
    definition_ids = c.definition_ids;
    definition_names = c.definition_names;
    execution_ids = c.execution_ids;
    task_ids = c.task_ids;
    task_keys = c.task_keys;
    attempt_ids = c.attempt_ids;
    event_ids = c.event_ids;
    record_keys = Distinct-filter _ (λ r. not (p r)) db.idempotency_records c.record_keys;
    execution_definitions = c.execution_definitions;
    task_executions = c.task_executions;
    attempt_tasks = c.attempt_tasks;
    record_owners = All-filter _ (λ r. not (p r)) db.idempotency_records c.record_owners;
    sane_tasks = c.sane_tasks;
    sane_executions = c.sane_executions;
    sane_attempts = c.sane_attempts;
  }
