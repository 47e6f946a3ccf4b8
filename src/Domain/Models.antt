-- ===== src/Domain/Models.antt =====
-- internal/domain/models.go. A status column is an enumeration of the constants that the code
-- writes. Timestamps count nanoseconds from Go's zero time (the year 1), so that a present time is
-- above 2^63. Error texts are bytes, because the code cuts them by bytes.
use durable_work_flow_engine.Prelude.{ℕ, String, Option, List, ℤ}
use durable_work_flow_engine.Domain.Documents.{RawMessage}

pub data ExecutionStatus : Type 0 where
  running succeeded failed : ExecutionStatus

pub data TaskStatus : Type 0 where
  pending running succeeded failed dead_lettered : TaskStatus

pub data TaskAttemptStatus : Type 0 where
  running succeeded failed : TaskAttemptStatus

pub data IdempotencyStatus : Type 0 where
  in_progress completed : IdempotencyStatus

pub data WorkflowDefinitionStatus : Type 0 where
  active : WorkflowDefinitionStatus

pub record WorkflowTaskSpec : Type 0 where
  pub name : String
  pub handler_key : String
  pub max_attempts : ℤ
  pub backoff_seconds : ℤ
  pub next_task : String

pub record WorkflowDefinitionSpec : Type 0 where
  pub entry_task : String
  pub tasks : List WorkflowTaskSpec

pub record WorkflowDefinition : Type 0 where
  pub id : String
  pub name : String
  pub description : String
  pub version : ℕ
  pub status : WorkflowDefinitionStatus
  pub definition_json : RawMessage
  pub created_at : ℕ
  pub updated_at : ℕ

pub record WorkflowExecution : Type 0 where
  pub id : String
  pub workflow_definition_id : String
  pub status : ExecutionStatus
  pub input_json : RawMessage
  pub output_json : RawMessage
  pub error_text : List ℕ
  pub created_at : ℕ
  pub updated_at : ℕ
  pub started_at : Option ℕ
  pub completed_at : Option ℕ

pub record TaskInstance : Type 0 where
  pub id : String
  pub workflow_execution_id : String
  pub task_name : String
  pub handler_key : String
  pub status : TaskStatus
  pub input_json : RawMessage
  pub output_json : RawMessage
  pub next_run_at : Option ℕ
  pub last_error_text : List ℕ
  pub attempts_total : ℕ
  pub idempotency_key : String
  pub dispatched_at : Option ℕ
  pub completed_at : Option ℕ
  pub created_at : ℕ
  pub updated_at : ℕ

pub record TaskAttempt : Type 0 where
  pub id : String
  pub task_instance_id : String
  pub attempt_number : ℕ
  pub status : TaskAttemptStatus
  pub started_at : ℕ
  pub finished_at : Option ℕ
  pub error_text : List ℕ
  pub output_json : RawMessage
  pub created_at : ℕ

pub record OutboxEvent : Type 0 where
  pub id : String
  pub aggregate_type : String
  pub aggregate_id : String
  pub event_type : String
  pub payload_json : RawMessage
  pub available_at : ℕ
  pub dispatched_at : Option ℕ
  pub attempt_count : ℕ
  pub last_error_text : List ℕ
  pub created_at : ℕ

pub record DispatchTaskPayload : Type 0 where
  pub task_id : String
  pub execution_id : String
  pub handler_key : String

-- `queue.TaskMessage` of internal/queue/redis_streams.go.
pub record TaskMessage : Type 0 where
  pub task_id : String
  pub execution_id : String
  pub handler_key : String

-- An entry of the Redis stream, `redis.XMessage`: its id, as its number in the stream, and the names
-- and texts of its fields.
pub record StreamEntry : Type 0 where
  pub id : ℕ
  pub values : List (String × RawMessage)

pub record ExecutionStartResult : Type 0 where
  pub execution : WorkflowExecution
  pub task : TaskInstance

pub record TaskSnapshot : Type 0 where
  pub task : TaskInstance
  pub attempts : List TaskAttempt

pub record ExecutionSnapshot : Type 0 where
  pub execution : WorkflowExecution
  pub tasks : List TaskSnapshot
