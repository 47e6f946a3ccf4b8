-- ===== src/Service.antt =====
-- The methods of `Service` in internal/orchestrator/service.go.
pub mod Limits
use durable_work_flow_engine.Prelude.{
  ℕ, suc, zero, String, List, if◌then◌else◌, ltb, ℤ, pos, negsuc, trim_space,
}
use durable_work_flow_engine.Domain.{
  RawMessage, empty, document, Json, str, arr, obj, nil, cons, end, field, Error, ok, err,
  errors_new, wrap, is_not_found, is_unique_violation, is_task_not_replayable, WorkflowDefinition,
  ExecutionStartResult, ExecutionSnapshot, TaskInstance,
}
use durable_work_flow_engine.Db.Exec.{Exec, raise, lift, ◌>>=◌}
use durable_work_flow_engine.Store
use durable_work_flow_engine.Workflow.{
  parse_and_validate_workflow_definition, find_entry_task, is_blank,
}

-- A call whose error is replaced.
abbrev pub catching : {A : Type 0} → (Error → Error) → Exec A → Exec A
catching f m w = let (r, w') = m w in (elim r [ ok a ↦ ok a | err e ↦ err (f e) ], w')

abbrev pub default_definition : Json
default_definition = obj (
    field "entry_task" (str "sample-task") (
      field "tasks"
        (arr (
          cons
            (obj (field "name" (str "sample-task") (field "handler_key" (str "sample.echo") end)))
            nil))
        end))

abbrev pub or_default : RawMessage → RawMessage
or_default empty = document default_definition
or_default raw = raw

abbrev pub creation_error : Error → Error
creation_error e =
    if is_unique_violation e
    then errors_new "workflow name already exists"
    else wrap "create workflow definition" e

unfoldable pub create_workflow_definition : String → String → RawMessage → Exec WorkflowDefinition
create_workflow_definition name description definition =
    if is_blank name then raise (errors_new "workflow name is required") else do
      spec ← lift (parse_and_validate_workflow_definition (or_default definition))
      catching creation_error (
          Store.Executions.create_workflow_definition (trim_space name) description
            (or_default definition))

abbrev pub fetch_error : Error → Error
fetch_error e =
    if is_not_found e
    then wrap "workflow definition not found" e
    else wrap "get workflow definition" e

unfoldable pub trigger_execution : String → RawMessage → Exec ExecutionStartResult
trigger_execution definition_id input =
    if is_blank definition_id then raise (errors_new "workflow_definition_id is required") else do
      definition ← catching fetch_error (Store.Executions.get_workflow_definition definition_id)
      spec ← lift (parse_and_validate_workflow_definition definition.definition_json)
      entry ← lift (find_entry_task spec)
      catching (wrap "create execution") (
          Store.Executions.create_execution_and_task definition_id input entry.name
            entry.handler_key)

unfoldable pub get_execution_snapshot : String → Exec ExecutionSnapshot
get_execution_snapshot execution_id = Store.Snapshot.get_execution_snapshot execution_id

unfoldable pub normalize_dead_letter_task_limit : ℤ → ℕ
normalize_dead_letter_task_limit (negsuc n) = 100
normalize_dead_letter_task_limit (pos zero) = 100
normalize_dead_letter_task_limit (pos (suc n)) = if ltb 500 (suc n) then 500 else suc n

unfoldable pub get_dead_lettered_tasks : ℤ → Exec (List TaskInstance)
get_dead_lettered_tasks limit =
    Store.Executions.list_dead_lettered_tasks (normalize_dead_letter_task_limit limit)

abbrev pub replay_error : Error → Error
replay_error e =
    if is_not_found e
    then e
    else if is_task_not_replayable e
    then e
    else wrap "replay dead-lettered task" e

unfoldable pub replay_dead_lettered_task : String → Exec TaskInstance
replay_dead_lettered_task task_id =
    if is_blank task_id
    then raise (errors_new "task id is required")
    else catching replay_error (Store.Executions.replay_dead_lettered_task (trim_space task_id))
