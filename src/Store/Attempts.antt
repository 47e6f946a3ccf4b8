-- ===== src/Store/Attempts.antt =====
-- internal/db/store.go: the life of a task attempt.
pub mod Start
pub mod Advance
pub mod Failure
pub mod Success
pub mod Handover
use durable_work_flow_engine.Prelude.{
  ℕ, suc, ◌+◌, String, ◌≡◌, refl, Bool, true, false, not, Option, none, some, List, [], ◌∷◌, ◌++◌,
  ltb, leb, if◌then◌else◌, ◌==◌, any, find, update_where, bytes,
}
use durable_work_flow_engine.Domain.{
  RawMessage, Json, Result, ok, err, TaskStatus, TaskAttemptStatus, ExecutionStatus,
  DispatchTaskPayload, TaskInstance, TaskAttempt,
}
use durable_work_flow_engine.Db.{World, scan_task_instance, scan_task_attempt}
use durable_work_flow_engine.Db.Rows.{TaskRow, ExecutionRow, AttemptRow, OutboxRow, Database}
use durable_work_flow_engine.Db.Exec.{
  gen_random_uuid, check, now, change, Exec, pure, raise, lift, statement, transaction, row_or_none,
  ◌>>=◌, ◌>>◌,
}
use durable_work_flow_engine.Store.Sql.{
  unique_violation, foreign_key_violation, out_of_range, integer_max, normalize_json, jsonb,
  truncate, has_task, insert_task, insert_outbox_event, select_task, set_task, set_execution,
  set_attempt, update, update_with_json,
}

abbrev pub new_attempt : String → String → ℕ → ℕ → AttemptRow
new_attempt id task_id number clock = record {
  id = id;
  task_instance_id = task_id;
  attempt_number = number;
  status = TaskAttemptStatus.running;
  started_at = clock;
  finished_at = none;
  error_text = none;
  output_json = none;
  created_at = clock;
}

abbrev pub add_attempt : AttemptRow → Database → Database
add_attempt row db = record db { task_attempts = db.task_attempts ++ row ∷ [] }

-- `INSERT INTO task_attempts`
unfoldable pub insert_attempt : String → ℕ → Exec AttemptRow
insert_attempt task_id number = statement do
  check (λ w. leb number integer_max) out_of_range
  id ← gen_random_uuid
  clock ← now
  check (λ w. not (any (λ a. a.id == id) w.db.task_attempts)) unique_violation
  check (λ w. has_task task_id w.db) foreign_key_violation
  change (add_attempt (new_attempt id task_id number clock))
  pure (new_attempt id task_id number clock)

abbrev pub started_row : ℕ → ℕ → TaskRow → TaskRow
started_row number clock t = record t {
  status = TaskStatus.running;
  attempts_total = number;
  next_run_at = none;
  updated_at = clock;
}

-- `UPDATE task_instances ... RETURNING`, as `StartTaskAttempt` makes it.
unfoldable pub update_task_started : String → ℕ → Exec TaskRow
update_task_started id number = statement do
  clock ← now
  change (set_task id (started_row number clock))
  λ w. (row_or_none (find (λ t. t.id == id) w.db.task_instances), w)

abbrev pub is_terminal : TaskStatus → Bool
is_terminal TaskStatus.succeeded = true
is_terminal TaskStatus.dead_lettered = true
is_terminal _ = false

-- The results `(task, TaskAttempt{}, true)` and `(task, attempt, false)`.
pub data Started : Type 0 where
  already_completed : TaskInstance → Started
  started : TaskInstance → TaskAttempt → Started

-- The body of the transaction.
unfoldable pub start_task_attempt_body : String → Exec Started
start_task_attempt_body task_id = do
  row ← select_task task_id
  let task = scan_task_instance row
  if is_terminal task.status then pure (already_completed task) else do
    let attempt_number = task.attempts_total + 1
    attempt ← insert_attempt task.id attempt_number
    updated ← update_task_started task.id attempt_number
    pure (started (scan_task_instance updated) (scan_task_attempt attempt))

unfoldable pub start_task_attempt : String → Exec Started
unfolding start_task_attempt_body
start_task_attempt task_id = transaction (start_task_attempt_body task_id)

-- `UPDATE task_attempts SET status = 'succeeded' ...`
abbrev pub succeeded_attempt : Json → ℕ → AttemptRow → AttemptRow
succeeded_attempt output clock a = record a {
  status = TaskAttemptStatus.succeeded;
  finished_at = some clock;
  output_json = some output;
}

abbrev pub succeeded_task : Json → ℕ → TaskRow → TaskRow
succeeded_task output clock t = record t {
  status = TaskStatus.succeeded;
  output_json = some output;
  completed_at = some clock;
  updated_at = clock;
}

abbrev pub succeeded_execution : Json → ℕ → ExecutionRow → ExecutionRow
succeeded_execution output clock e = record e {
  status = ExecutionStatus.succeeded;
  output_json = some output;
  completed_at = some clock;
  updated_at = clock;
}

unfoldable pub complete_task_attempt_body : String → String → RawMessage → Exec (Unit {0})
complete_task_attempt_body task_id attempt_id output = do
  row ← select_task task_id
  let payload = normalize_json output
  update_with_json payload (λ j clock. set_attempt attempt_id (succeeded_attempt j clock))
  update_with_json payload (λ j clock. set_task task_id (succeeded_task j clock))
  update_with_json payload
      (λ j clock. set_execution row.workflow_execution_id (succeeded_execution j clock))

unfoldable pub complete_task_attempt : String → String → RawMessage → Exec (Unit {0})
unfolding complete_task_attempt_body
complete_task_attempt task_id attempt_id output =
    transaction (complete_task_attempt_body task_id attempt_id output)

unfoldable pub complete_and_enqueue_body :
    String → String → String → String → RawMessage → Exec (Unit {0})
complete_and_enqueue_body task_id attempt_id next_task_name next_handler_key output = do
  row ← select_task task_id
  let payload = normalize_json output
  update_with_json payload (λ j clock. set_attempt attempt_id (succeeded_attempt j clock))
  update_with_json payload (λ j clock. set_task task_id (succeeded_task j clock))
  next ← insert_task row.workflow_execution_id next_task_name next_handler_key payload
  insert_outbox_event (record {
    task_id = next.id;
    execution_id = row.workflow_execution_id;
    handler_key = next_handler_key;
  })

unfoldable pub complete_task_attempt_and_enqueue_next_task :
    String → String → String → String → RawMessage → Exec (Unit {0})
unfolding complete_and_enqueue_body
complete_task_attempt_and_enqueue_next_task task_id attempt_id next_task_name next_handler_key
      output =
    transaction
      (complete_and_enqueue_body task_id attempt_id next_task_name next_handler_key output)

abbrev pub failed_attempt : List ℕ → ℕ → AttemptRow → AttemptRow
failed_attempt text clock a = record a {
  status = TaskAttemptStatus.failed;
  finished_at = some clock;
  error_text = some text;
}

abbrev pub retried_task : List ℕ → ℕ → ℕ → TaskRow → TaskRow
retried_task text next_run_at clock t = record t {
  status = TaskStatus.pending;
  last_error_text = some text;
  next_run_at = some next_run_at;
  updated_at = clock;
}

unfoldable pub schedule_task_retry_body : String → String → List ℕ → ℕ → Exec (Unit {0})
schedule_task_retry_body task_id attempt_id error_text next_run_at = do
  update (λ clock. set_attempt attempt_id (failed_attempt (truncate error_text 1000) clock))
  update (λ clock. set_task task_id (retried_task (truncate error_text 1000) next_run_at clock))

unfoldable pub schedule_task_retry : String → String → List ℕ → ℕ → Exec (Unit {0})
unfolding schedule_task_retry_body
schedule_task_retry task_id attempt_id error_text next_run_at =
    transaction (schedule_task_retry_body task_id attempt_id error_text next_run_at)

abbrev pub dead_lettered_task : List ℕ → ℕ → TaskRow → TaskRow
dead_lettered_task text clock t = record t {
  status = TaskStatus.dead_lettered;
  last_error_text = some text;
  next_run_at = none;
  completed_at = some clock;
  updated_at = clock;
}

abbrev pub failed_execution : List ℕ → ℕ → ExecutionRow → ExecutionRow
failed_execution text clock e = record e {
  status = ExecutionStatus.failed;
  error_text = some text;
  completed_at = some clock;
  updated_at = clock;
}

unfoldable pub fail_task_attempt_body : String → String → List ℕ → Exec (Unit {0})
fail_task_attempt_body task_id attempt_id error_text = do
  row ← select_task task_id
  update (λ clock. set_attempt attempt_id (failed_attempt (truncate error_text 1000) clock))
  update (λ clock. set_task task_id (dead_lettered_task (truncate error_text 1000) clock))
  update (λ clock.
      set_execution row.workflow_execution_id (failed_execution (truncate error_text 1000) clock))

unfoldable pub fail_task_attempt : String → String → List ℕ → Exec (Unit {0})
unfolding fail_task_attempt_body
fail_task_attempt task_id attempt_id error_text =
    transaction (fail_task_attempt_body task_id attempt_id error_text)
