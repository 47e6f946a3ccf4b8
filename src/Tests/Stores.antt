-- ===== src/Tests/Stores.antt =====
-- The theorems on the store at small databases.
use durable_work_flow_engine.Prelude.{◌≡◌, refl, [], ◌∷◌, All}
use durable_work_flow_engine.Domain.{empty}
use durable_work_flow_engine.Db.{World, scan_task_instance, scan_task_attempt}
use durable_work_flow_engine.Db.Rows.{Database, TaskRow}
use durable_work_flow_engine.Store.Sql.{make_task_idempotency_key}
use durable_work_flow_engine.Store.Attempts.{
  Started, started, started_row, new_attempt, start_task_attempt,
  complete_task_attempt_and_enqueue_next_task,
}
use durable_work_flow_engine.Store.Attempts.Advance.{
  complete_task_attempt_and_enqueue_next_task-taken,
}
use durable_work_flow_engine.Store.Calls.{after_call, start, next, Reachable}
use durable_work_flow_engine.Store.Consistency.{IsConsistent, Reachable-IsConsistent}
use durable_work_flow_engine.Store.Numbering.{Reachable-numbered}
use durable_work_flow_engine.Store.Numbering.Numbers.{numbers_of, upto}
use durable_work_flow_engine.Tests.Data.{
  second_db, second_db-Reachable, world_on, with_tasks, pending_task, later_task,
}

abbrev third_db : Database
third_db = after_call (start "xid") (world_on second_db)

third_db-Reachable : Reachable third_db
third_db-Reachable = next second_db-Reachable (start "xid") (world_on second_db) refl refl

Reachable-IsConsistent_example : IsConsistent third_db
Reachable-IsConsistent_example = Reachable-IsConsistent third_db-Reachable

Reachable-numbered_example :
    All
      (λ t. numbers_of t.id third_db.task_attempts ≡ upto t.attempts_total)
      third_db.task_instances
Reachable-numbered_example = Reachable-numbered third_db-Reachable

complete_task_attempt_and_enqueue_next_task-taken_example :
    (complete_task_attempt_and_enqueue_next_task "t1" "a1" "pack" "notification.send" empty
      (world_on (with_tasks (pending_task ∷ later_task ∷ [])))).1.db
    ≡ with_tasks (pending_task ∷ later_task ∷ [])
unfolding make_task_idempotency_key
complete_task_attempt_and_enqueue_next_task-taken_example =
    complete_task_attempt_and_enqueue_next_task-taken "t1" "a1" "pack" "notification.send" empty
      (world_on (with_tasks (pending_task ∷ later_task ∷ []))) pending_task refl refl

abbrev start_world : World
start_world = world_on (with_tasks (pending_task ∷ []))

abbrev running_task : TaskRow
running_task = started_row 1 1000 pending_task

abbrev first_attempt : Started
first_attempt =
    started (scan_task_instance running_task) (scan_task_attempt (new_attempt "id" "t1" 1 1000))

abbrev started_world : World
started_world = (start_task_attempt "t1" start_world).1
