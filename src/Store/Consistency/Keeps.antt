-- ===== src/Store/Consistency/Keeps.antt =====
-- The changes of tasks and executions that the operations make, and what they keep.
use durable_work_flow_engine.Prelude.{ℕ, List, ◌≡◌, refl}
use durable_work_flow_engine.Domain.{Json}
use durable_work_flow_engine.Db.Rows.{TaskRow, ExecutionRow, AttemptRow}
use durable_work_flow_engine.Store.Attempts.{
  started_row, succeeded_task, succeeded_execution, retried_task, dead_lettered_task,
  failed_execution, succeeded_attempt, failed_attempt,
}
use durable_work_flow_engine.Store.Executions.{replayed_task, replayed_execution}
use durable_work_flow_engine.Store.Outbox.{unscheduled_task}
use durable_work_flow_engine.Store.Consistency.Rows.{
  TaskIsSane, ExecutionIsSane, AttemptIsSane, started_row-sane, replayed_task-sane,
  succeeded_task-sane, retried_task-sane, dead_lettered_task-sane, unscheduled_task-sane,
  succeeded_execution-sane, failed_execution-sane, replayed_execution-sane, succeeded_attempt-sane,
  failed_attempt-sane,
}

-- A change of a task that keeps its identity.
pub record KeepsTask (f : TaskRow → TaskRow) : Type 0 where
  pub id : (t : TaskRow) → (f t).id ≡ t.id
  pub execution : (t : TaskRow) → (f t).workflow_execution_id ≡ t.workflow_execution_id
  pub key : (t : TaskRow) → (f t).idempotency_key ≡ t.idempotency_key
  pub sane : (t : TaskRow) → TaskIsSane t → TaskIsSane (f t)

-- The change keeps the number of attempts.
abbrev pub KeepsTotal : (TaskRow → TaskRow) → Type 0
KeepsTotal f = (t : TaskRow) → (f t).attempts_total ≡ t.attempts_total

-- A change of an execution that keeps its identity and leaves it sane.
pub record KeepsExecution (f : ExecutionRow → ExecutionRow) : Type 0 where
  pub id : (e : ExecutionRow) → (f e).id ≡ e.id
  pub definition : (e : ExecutionRow) → (f e).workflow_definition_id ≡ e.workflow_definition_id
  pub sane : (e : ExecutionRow) → ExecutionIsSane (f e)

-- A change of an attempt that keeps its identity and leaves it sane.
pub record KeepsAttempt (f : AttemptRow → AttemptRow) : Type 0 where
  pub id : (a : AttemptRow) → (f a).id ≡ a.id
  pub task : (a : AttemptRow) → (f a).task_instance_id ≡ a.task_instance_id
  pub number : (a : AttemptRow) → (f a).attempt_number ≡ a.attempt_number
  pub sane : (a : AttemptRow) → AttemptIsSane (f a)

pub started_row-keeps : (n clock : ℕ) → KeepsTask (started_row n clock)
started_row-keeps n clock = record {
  id = λ t. refl;
  execution = λ t. refl;
  key = λ t. refl;
  sane = λ t h. started_row-sane t h n clock;
}

pub replayed_task-keeps : (clock : ℕ) → KeepsTask (replayed_task clock)
replayed_task-keeps clock = record {
  id = λ t. refl;
  execution = λ t. refl;
  key = λ t. refl;
  sane = λ t h. replayed_task-sane t h clock;
}

pub succeeded_task-keeps : (j : Json) (clock : ℕ) → KeepsTask (succeeded_task j clock)
succeeded_task-keeps j clock = record {
  id = λ t. refl;
  execution = λ t. refl;
  key = λ t. refl;
  sane = λ t h. succeeded_task-sane t h j clock;
}

pub retried_task-keeps : (text : List ℕ) (at clock : ℕ) → KeepsTask (retried_task text at clock)
retried_task-keeps text at clock = record {
  id = λ t. refl;
  execution = λ t. refl;
  key = λ t. refl;
  sane = λ t h. retried_task-sane t h text at clock;
}

pub dead_lettered_task-keeps :
    (text : List ℕ) (clock : ℕ) → KeepsTask (dead_lettered_task text clock)
dead_lettered_task-keeps text clock = record {
  id = λ t. refl;
  execution = λ t. refl;
  key = λ t. refl;
  sane = λ t h. dead_lettered_task-sane t h text clock;
}

pub unscheduled_task-keeps : (clock : ℕ) → KeepsTask (unscheduled_task clock)
unscheduled_task-keeps clock = record {
  id = λ t. refl;
  execution = λ t. refl;
  key = λ t. refl;
  sane = λ t h. unscheduled_task-sane t h clock;
}

pub succeeded_execution-keeps :
    (j : Json) (clock : ℕ) → KeepsExecution (succeeded_execution j clock)
succeeded_execution-keeps j clock = record {
  id = λ e. refl;
  definition = λ e. refl;
  sane = λ e. succeeded_execution-sane e j clock;
}

pub failed_execution-keeps : (s : List ℕ) (clock : ℕ) → KeepsExecution (failed_execution s clock)
failed_execution-keeps s clock = record {
  id = λ e. refl;
  definition = λ e. refl;
  sane = λ e. failed_execution-sane e s clock;
}

pub replayed_execution-keeps : (clock : ℕ) → KeepsExecution (replayed_execution clock)
replayed_execution-keeps clock = record {
  id = λ e. refl;
  definition = λ e. refl;
  sane = λ e. replayed_execution-sane e clock;
}

pub succeeded_attempt-keeps : (j : Json) (clock : ℕ) → KeepsAttempt (succeeded_attempt j clock)
succeeded_attempt-keeps j clock = record {
  id = λ a. refl;
  task = λ a. refl;
  number = λ a. refl;
  sane = λ a. succeeded_attempt-sane a j clock;
}

pub failed_attempt-keeps : (s : List ℕ) (clock : ℕ) → KeepsAttempt (failed_attempt s clock)
failed_attempt-keeps s clock = record {
  id = λ a. refl;
  task = λ a. refl;
  number = λ a. refl;
  sane = λ a. failed_attempt-sane a s clock;
}
