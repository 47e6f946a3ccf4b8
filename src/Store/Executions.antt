-- ===== src/Store/Executions.antt =====
-- internal/db/store.go: workflow definitions, executions and the replay of a dead-lettered task.
use durable_work_flow_engine.Prelude.{
  ℕ, String, Bool, true, false, not, none, some, List, [], ◌∷◌, ◌++◌, if◌then◌else◌, ◌==◌, any,
  find, filter, map, sort_by, take, leb,
}
use durable_work_flow_engine.Domain.{
  RawMessage, Json, ok, task_not_replayable, TaskStatus, ExecutionStatus, active,
  WorkflowDefinition, WorkflowExecution, TaskInstance, ExecutionStartResult,
}
use durable_work_flow_engine.Db.{
  scan_workflow_definition, scan_workflow_execution, scan_task_instance,
}
use durable_work_flow_engine.Db.Rows.{WorkflowDefinitionRow, ExecutionRow, TaskRow, Database}
use durable_work_flow_engine.Db.Exec.{
  gen_random_uuid, check, now, change, Exec, pure, raise, lift, statement, transaction, row_or_none,
  ◌>>=◌, ◌>>◌,
}
use durable_work_flow_engine.Store.Sql.{
  unique_violation, foreign_key_violation, normalize_json, jsonb, select_task, insert_task,
  insert_outbox_event, set_task, set_execution, update,
}

abbrev pub new_definition : String → String → String → Json → ℕ → WorkflowDefinitionRow
new_definition id name description definition clock = record {
  id = id;
  name = name;
  description = description;
  version = 1;
  status = active;
  definition_json = definition;
  created_at = clock;
  updated_at = clock;
}

abbrev pub add_definition : WorkflowDefinitionRow → Database → Database
add_definition row db = record db { workflow_definitions = db.workflow_definitions ++ row ∷ [] }

-- `INSERT INTO workflow_definitions`, whose column `name` is unique.
unfoldable pub create_workflow_definition : String → String → RawMessage → Exec WorkflowDefinition
create_workflow_definition name description definition = statement do
  j ← lift (jsonb (normalize_json definition))
  id ← gen_random_uuid
  clock ← now
  check (λ w. not (any (λ d. d.id == id) w.db.workflow_definitions)) unique_violation
  check (λ w. not (any (λ d. d.name == name) w.db.workflow_definitions)) unique_violation
  change (add_definition (new_definition id name description j clock))
  pure (scan_workflow_definition (new_definition id name description j clock))

unfoldable pub get_workflow_definition : String → Exec WorkflowDefinition
get_workflow_definition id = do
  row ← statement λ w. (row_or_none (find (λ d. d.id == id) w.db.workflow_definitions), w)
  pure (scan_workflow_definition row)

unfoldable pub get_workflow_execution : String → Exec WorkflowExecution
get_workflow_execution id = do
  row ← statement λ w. (row_or_none (find (λ e. e.id == id) w.db.workflow_executions), w)
  pure (scan_workflow_execution row)

unfoldable pub get_task_instance : String → Exec TaskInstance
get_task_instance id = do row ← select_task id; pure (scan_task_instance row)

abbrev pub new_execution : String → String → Json → ℕ → ExecutionRow
new_execution id definition_id input clock = record {
  id = id;
  workflow_definition_id = definition_id;
  status = ExecutionStatus.running;
  input_json = input;
  output_json = none;
  error_text = none;
  created_at = clock;
  updated_at = clock;
  started_at = some clock;
  completed_at = none;
}

abbrev pub add_execution : ExecutionRow → Database → Database
add_execution row db = record db { workflow_executions = db.workflow_executions ++ row ∷ [] }

-- `INSERT INTO workflow_executions`
unfoldable pub insert_execution : String → RawMessage → Exec ExecutionRow
insert_execution definition_id input = statement do
  j ← lift (jsonb input)
  id ← gen_random_uuid
  clock ← now
  check (λ w. not (any (λ e. e.id == id) w.db.workflow_executions)) unique_violation
  check (λ w. any (λ d. d.id == definition_id) w.db.workflow_definitions) foreign_key_violation
  change (add_execution (new_execution id definition_id j clock))
  pure (new_execution id definition_id j clock)

unfoldable pub create_execution_and_task_body :
    String → RawMessage → String → String → Exec ExecutionStartResult
create_execution_and_task_body definition_id input task_name handler_key = do
  execution ← insert_execution definition_id (normalize_json input)
  task ← insert_task execution.id task_name handler_key (normalize_json input)
  insert_outbox_event
      (record { task_id = task.id; execution_id = execution.id; handler_key = task.handler_key })
  pure (record { execution = scan_workflow_execution execution; task = scan_task_instance task })

unfoldable pub create_execution_and_task :
    String → RawMessage → String → String → Exec ExecutionStartResult
unfolding create_execution_and_task_body
create_execution_and_task definition_id input task_name handler_key =
    transaction (create_execution_and_task_body definition_id input task_name handler_key)

abbrev pub is_dead_lettered : TaskStatus → Bool
is_dead_lettered TaskStatus.dead_lettered = true
is_dead_lettered _ = false

abbrev pub replayed_task : ℕ → TaskRow → TaskRow
replayed_task clock t = record t {
  status = TaskStatus.pending;
  output_json = none;
  next_run_at = none;
  last_error_text = none;
  completed_at = none;
  updated_at = clock;
}

abbrev pub replayed_execution : ℕ → ExecutionRow → ExecutionRow
replayed_execution clock e = record e {
  status = ExecutionStatus.running;
  error_text = none;
  completed_at = none;
  updated_at = clock;
}

-- `UPDATE task_instances ... RETURNING`, as `ReplayDeadLetteredTask` makes it.
unfoldable pub update_task_replayed : String → Exec TaskRow
update_task_replayed id = statement do
  clock ← now
  change (set_task id (replayed_task clock))
  λ w. (row_or_none (find (λ t. t.id == id) w.db.task_instances), w)

unfoldable pub replay_dead_lettered_task_body : String → Exec TaskInstance
replay_dead_lettered_task_body task_id = do
  row ← select_task task_id
  if not (is_dead_lettered row.status) then raise task_not_replayable else do
    updated ← update_task_replayed row.id
    update (λ clock. set_execution row.workflow_execution_id (replayed_execution clock))
    insert_outbox_event (record {
      task_id = updated.id;
      execution_id = updated.workflow_execution_id;
      handler_key = updated.handler_key;
    })
    pure (scan_task_instance updated)

unfoldable pub replay_dead_lettered_task : String → Exec TaskInstance
unfolding replay_dead_lettered_task_body
replay_dead_lettered_task task_id = transaction (replay_dead_lettered_task_body task_id)

-- `WHERE status = 'dead_lettered' ORDER BY updated_at DESC LIMIT $2`
unfoldable pub list_dead_lettered_tasks : ℕ → Exec (List TaskInstance)
list_dead_lettered_tasks limit = do
  rows ← statement λ w. (
    ok (
        take limit (
          sort_by (λ s t. leb t.updated_at s.updated_at)
            (filter (λ t. is_dead_lettered t.status) w.db.task_instances))),
    w,
  )
  pure (map scan_task_instance rows)
