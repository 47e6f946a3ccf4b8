-- ===== src/Db/Scan.antt =====
-- The `scan...` functions of internal/db/store.go.
use durable_work_flow_engine.Prelude.{ℕ, Option, none, some, List, []}
use durable_work_flow_engine.Domain.{
  WorkflowDefinition, WorkflowExecution, TaskInstance, TaskAttempt, OutboxEvent, document,
  raw_of_column,
}
use durable_work_flow_engine.Db.Rows.{
  WorkflowDefinitionRow, ExecutionRow, TaskRow, AttemptRow, OutboxRow,
}

-- A NULL text is read as the empty string.
abbrev pub string_value : Option (List ℕ) → List ℕ
string_value none = []
string_value (some s) = s

unfoldable pub scan_workflow_definition : WorkflowDefinitionRow → WorkflowDefinition
scan_workflow_definition row = record {
  id = row.id;
  name = row.name;
  description = row.description;
  version = row.version;
  status = row.status;
  definition_json = document row.definition_json;
  created_at = row.created_at;
  updated_at = row.updated_at;
}

unfoldable pub scan_workflow_execution : ExecutionRow → WorkflowExecution
scan_workflow_execution row = record {
  id = row.id;
  workflow_definition_id = row.workflow_definition_id;
  status = row.status;
  input_json = document row.input_json;
  output_json = raw_of_column row.output_json;
  error_text = string_value row.error_text;
  created_at = row.created_at;
  updated_at = row.updated_at;
  started_at = row.started_at;
  completed_at = row.completed_at;
}

unfoldable pub scan_task_instance : TaskRow → TaskInstance
scan_task_instance row = record {
  id = row.id;
  workflow_execution_id = row.workflow_execution_id;
  task_name = row.task_name;
  handler_key = row.handler_key;
  status = row.status;
  input_json = document row.input_json;
  output_json = raw_of_column row.output_json;
  next_run_at = row.next_run_at;
  last_error_text = string_value row.last_error_text;
  attempts_total = row.attempts_total;
  idempotency_key = row.idempotency_key;
  dispatched_at = row.dispatched_at;
  completed_at = row.completed_at;
  created_at = row.created_at;
  updated_at = row.updated_at;
}

unfoldable pub scan_task_attempt : AttemptRow → TaskAttempt
scan_task_attempt row = record {
  id = row.id;
  task_instance_id = row.task_instance_id;
  attempt_number = row.attempt_number;
  status = row.status;
  started_at = row.started_at;
  finished_at = row.finished_at;
  error_text = string_value row.error_text;
  output_json = raw_of_column row.output_json;
  created_at = row.created_at;
}

unfoldable pub scan_outbox_event : OutboxRow → OutboxEvent
scan_outbox_event row = record {
  id = row.id;
  aggregate_type = row.aggregate_type;
  aggregate_id = row.aggregate_id;
  event_type = row.event_type;
  payload_json = document row.payload_json;
  available_at = row.available_at;
  dispatched_at = row.dispatched_at;
  attempt_count = row.attempt_count;
  last_error_text = string_value row.last_error_text;
  created_at = row.created_at;
}
