-- ===== src/Store/Consistency/Rows.antt =====
-- What holds of every single row, and that the changes of the rows keep it.
use durable_work_flow_engine.Prelude.{ℕ, String, ◌≡◌, ◌≢◌, none, List, arith}
use durable_work_flow_engine.Domain.{Json, TaskStatus, ExecutionStatus, TaskAttemptStatus}
use durable_work_flow_engine.Db.Rows.{TaskRow, ExecutionRow, AttemptRow}
use durable_work_flow_engine.Store.Sql.{new_task, make_task_idempotency_key}
use durable_work_flow_engine.Store.Attempts.{
  started_row, succeeded_task, retried_task, dead_lettered_task, succeeded_execution,
  failed_execution, succeeded_attempt, failed_attempt, new_attempt,
}
use durable_work_flow_engine.Store.Executions.{new_execution, replayed_task, replayed_execution}
use durable_work_flow_engine.Store.Outbox.{unscheduled_task}

-- The status `failed` is not in use; a retry is scheduled for no running and no dead-lettered task; a
-- succeeded and a dead-lettered task have the time of their end; a succeeded one has an output; the key
-- is made of the execution and the name of the task.
pub record TaskIsSane (t : TaskRow) : Type 0 where
  pub not_failed : t.status ≢ TaskStatus.failed
  pub running_unscheduled : t.status ≡ TaskStatus.running → t.next_run_at ≡ none
  pub dead_unscheduled : t.status ≡ TaskStatus.dead_lettered → t.next_run_at ≡ none
  pub dead_completed : t.status ≡ TaskStatus.dead_lettered → t.completed_at ≢ none
  pub succeeded_completed : t.status ≡ TaskStatus.succeeded → t.completed_at ≢ none
  pub succeeded_output : t.status ≡ TaskStatus.succeeded → t.output_json ≢ none
  pub key : t.idempotency_key ≡ make_task_idempotency_key t.workflow_execution_id t.task_name

-- An execution has the time of its end exactly if it does not run; a failed one has an error text, a
-- succeeded one an output.
pub record ExecutionIsSane (e : ExecutionRow) : Type 0 where
  pub running_open : e.status ≡ ExecutionStatus.running → e.completed_at ≡ none
  pub ended_completed : e.status ≢ ExecutionStatus.running → e.completed_at ≢ none
  pub failed_error : e.status ≡ ExecutionStatus.failed → e.error_text ≢ none
  pub succeeded_output : e.status ≡ ExecutionStatus.succeeded → e.output_json ≢ none

-- An attempt has the time of its end exactly if it does not run; a failed one has an error text, a
-- succeeded one an output.
pub record AttemptIsSane (a : AttemptRow) : Type 0 where
  pub running_open : a.status ≡ TaskAttemptStatus.running → a.finished_at ≡ none
  pub ended_finished : a.status ≢ TaskAttemptStatus.running → a.finished_at ≢ none
  pub failed_error : a.status ≡ TaskAttemptStatus.failed → a.error_text ≢ none
  pub succeeded_output : a.status ≡ TaskAttemptStatus.succeeded → a.output_json ≢ none

module _ (t : TaskRow) (h : TaskIsSane t) where
  pub started_row-sane : (n clock : ℕ) → TaskIsSane (started_row n clock t)
  started_row-sane n clock = ground (arith, h.key)

  pub succeeded_task-sane : (j : Json) (clock : ℕ) → TaskIsSane (succeeded_task j clock t)
  succeeded_task-sane j clock = ground (arith, h.key)

  pub retried_task-sane : (s : List ℕ) (at clock : ℕ) → TaskIsSane (retried_task s at clock t)
  retried_task-sane s at clock = ground (arith, h.key)

  pub dead_lettered_task-sane : (s : List ℕ) (clock : ℕ) → TaskIsSane (dead_lettered_task s clock t)
  dead_lettered_task-sane s clock = ground (arith, h.key)

  pub replayed_task-sane : (clock : ℕ) → TaskIsSane (replayed_task clock t)
  replayed_task-sane clock = ground (arith, h.key)

  pub unscheduled_task-sane : (clock : ℕ) → TaskIsSane (unscheduled_task clock t)
  unscheduled_task-sane clock = ground (arith, h.key)

pub new_task-sane :
    (id e n k : String) (j : Json) (clock : ℕ) → TaskIsSane (new_task id e n k j clock)
new_task-sane id e n k j clock = ground arith

module _ (e : ExecutionRow) where
  pub succeeded_execution-sane :
      (j : Json) (clock : ℕ) → ExecutionIsSane (succeeded_execution j clock e)
  succeeded_execution-sane j clock = ground arith

  pub failed_execution-sane :
      (s : List ℕ) (clock : ℕ) → ExecutionIsSane (failed_execution s clock e)
  failed_execution-sane s clock = ground arith

  pub replayed_execution-sane : (clock : ℕ) → ExecutionIsSane (replayed_execution clock e)
  replayed_execution-sane clock = ground arith

pub new_execution-sane :
    (id d : String) (j : Json) (clock : ℕ) → ExecutionIsSane (new_execution id d j clock)
new_execution-sane id d j clock = ground arith

pub succeeded_attempt-sane :
    (a : AttemptRow) (j : Json) (clock : ℕ) → AttemptIsSane (succeeded_attempt j clock a)
succeeded_attempt-sane a j clock = ground arith

pub failed_attempt-sane :
    (a : AttemptRow) (s : List ℕ) (clock : ℕ) → AttemptIsSane (failed_attempt s clock a)
failed_attempt-sane a s clock = ground arith

pub new_attempt-sane : (id t : String) (n clock : ℕ) → AttemptIsSane (new_attempt id t n clock)
new_attempt-sane id t n clock = ground arith
