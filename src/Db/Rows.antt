-- ===== src/Db/Rows.antt =====
-- The tables of migrations/*.sql. A nullable column is an `Option`.
use durable_work_flow_engine.Prelude.{ℕ, String, Option, List}
use durable_work_flow_engine.Domain.{
  Json, WorkflowDefinitionStatus, ExecutionStatus, TaskStatus, TaskAttemptStatus, IdempotencyStatus,
}

pub record WorkflowDefinitionRow : Type 0 where
  pub id : String
  pub name : String
  pub description : String
  pub version : ℕ
  pub status : WorkflowDefinitionStatus
  pub definition_json : Json
  pub created_at : ℕ
  pub updated_at : ℕ

pub record ExecutionRow : Type 0 where
  pub id : String
  pub workflow_definition_id : String
  pub status : ExecutionStatus
  pub input_json : Json
  pub output_json : Option Json
  pub error_text : Option (List ℕ)
  pub created_at : ℕ
  pub updated_at : ℕ
  pub started_at : Option ℕ
  pub completed_at : Option ℕ

pub record TaskRow : Type 0 where
  pub id : String
  pub workflow_execution_id : String
  pub task_name : String
  pub handler_key : String
  pub status : TaskStatus
  pub input_json : Json
  pub output_json : Option Json
  pub next_run_at : Option ℕ
  pub last_error_text : Option (List ℕ)
  pub attempts_total : ℕ
  pub idempotency_key : String
  pub dispatched_at : Option ℕ
  pub completed_at : Option ℕ
  pub created_at : ℕ
  pub updated_at : ℕ

pub record AttemptRow : Type 0 where
  pub id : String
  pub task_instance_id : String
  pub attempt_number : ℕ
  pub status : TaskAttemptStatus
  pub started_at : ℕ
  pub finished_at : Option ℕ
  pub error_text : Option (List ℕ)
  pub output_json : Option Json
  pub created_at : ℕ

pub record OutboxRow : Type 0 where
  pub id : String
  pub aggregate_type : String
  pub aggregate_id : String
  pub event_type : String
  pub payload_json : Json
  pub available_at : ℕ
  pub dispatched_at : Option ℕ
  pub attempt_count : ℕ
  pub last_error_text : Option (List ℕ)
  pub created_at : ℕ

pub record IdempotencyRow : Type 0 where
  pub handler_key : String
  pub idempotency_key : String
  pub owner_task_instance_id : Option String
  pub status : IdempotencyStatus
  pub response_json : Option Json
  pub created_at : ℕ
  pub updated_at : ℕ

-- The rows of a table stand in the order of insertion.
pub record Database : Type 0 where
  pub workflow_definitions : List WorkflowDefinitionRow
  pub workflow_executions : List ExecutionRow
  pub task_instances : List TaskRow
  pub task_attempts : List AttemptRow
  pub outbox_events : List OutboxRow
  pub idempotency_records : List IdempotencyRow
