-- ===== src/Store/Snapshot.antt =====
-- `GetExecutionSnapshot` of internal/db/store.go.
pub mod Grouping
use Prim.Native.Nat.{Ordering}
use Prim.Native.String.{compare}
use durable_work_flow_engine.Prelude.{
  String, Bool, true, false, ◌&&◌, ◌||◌, List, [], ◌∷◌, ◌++◌, if◌then◌else◌, ◌==◌, any, find,
  filter, map, sort_by, leb,
}
use durable_work_flow_engine.Domain.{ok, TaskAttempt, ExecutionSnapshot}
use durable_work_flow_engine.Db.{scan_workflow_execution, scan_task_instance, scan_task_attempt}
use durable_work_flow_engine.Db.Rows.{TaskRow, AttemptRow, Database}
use durable_work_flow_engine.Db.Exec.{Exec, pure, statement, row_or_none, ◌>>=◌}

abbrev pub str_before : String → String → Bool
str_before a b = elim (compare a b) [ Ordering.lt ↦ true | _ ↦ false ]

-- `ORDER BY a.task_instance_id, a.attempt_number`
abbrev pub attempt_before : AttemptRow → AttemptRow → Bool
attempt_before a b =
    str_before a.task_instance_id b.task_instance_id
    || ((a.task_instance_id == b.task_instance_id) && leb a.attempt_number b.attempt_number)

unfoldable pub select_tasks_of : String → Exec (List TaskRow)
select_tasks_of execution_id = statement λ w. (
  ok (
      sort_by (λ s t. leb s.created_at t.created_at)
        (filter (λ t. t.workflow_execution_id == execution_id) w.db.task_instances)),
  w,
)

-- `JOIN task_instances t ON t.id = a.task_instance_id WHERE t.workflow_execution_id = $1`
abbrev pub joins : String → Database → AttemptRow → Bool
joins execution_id db a =
    any (λ t. (t.id == a.task_instance_id) && (t.workflow_execution_id == execution_id))
      db.task_instances

unfoldable pub select_attempts_of : String → Exec (List AttemptRow)
select_attempts_of execution_id =
    statement
      λ w. (ok (sort_by attempt_before (filter (joins execution_id w.db) w.db.task_attempts)), w)

-- `attemptsByTask`, a map whose missing entries are the nil slice.
abbrev pub AttemptMap : Type 0
AttemptMap = String → List TaskAttempt

abbrev pub append_attempt : AttemptMap → TaskAttempt → AttemptMap
append_attempt m a id = if a.task_instance_id == id then m id ++ a ∷ [] else m id

unfoldable pub group_attempts : AttemptMap → List TaskAttempt → AttemptMap
group_attempts m [] = m
group_attempts m (a ∷ attempts) = group_attempts (append_attempt m a) attempts

unfoldable pub get_execution_snapshot : String → Exec ExecutionSnapshot
get_execution_snapshot execution_id = do
  execution ←
      statement λ w. (row_or_none (find (λ e. e.id == execution_id) w.db.workflow_executions), w)
  task_rows ← select_tasks_of execution_id
  attempt_rows ← select_attempts_of execution_id
  let tasks = map scan_task_instance task_rows
  let attempts_by_task = group_attempts (λ id. []) (map scan_task_attempt attempt_rows)
  pure (record {
    execution = scan_workflow_execution execution;
    tasks = map (λ t. record { task = t; attempts = attempts_by_task t.id }) tasks;
  })
