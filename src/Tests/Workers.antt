-- ===== src/Tests/Workers.antt =====
-- The theorems on the worker at small databases, and at a concrete backoff.
use durable_work_flow_engine.Prelude.{◌≡◌, refl, arith, ◌+◌, ◌*◌, [], ◌∷◌, pos, trim_space}
use durable_work_flow_engine.Worker.{
  after_success, after_failure, handle_dispatched_task, next_run_at, scheduled_retry, advanced,
}
use durable_work_flow_engine.Domain.{empty, errors_new}
use durable_work_flow_engine.Db.{scan_task_instance, scan_task_attempt}
use durable_work_flow_engine.Db.Exec.{statement, transaction}
use durable_work_flow_engine.Store.Sql.{
  select_task, update, update_with_json, insert_task, insert_outbox_event, normalize_json,
  make_task_idempotency_key, truncate,
}
use durable_work_flow_engine.Store.Attempts.{
  schedule_task_retry, schedule_task_retry_body, complete_task_attempt_and_enqueue_next_task,
  complete_and_enqueue_body,
}
use durable_work_flow_engine.Workflow.{find_next_task_spec, find_task_spec_by_name}
use durable_work_flow_engine.Worker.Progress.{IsStored, after_success-IsStored}
use durable_work_flow_engine.Worker.Backoff.{next_run_at-exact}
use durable_work_flow_engine.Worker.Outcomes.{is_err, is_error, handle_dispatched_task-reports}
use durable_work_flow_engine.Worker.Redelivery.{handle_dispatched_task-done}
use durable_work_flow_engine.Tests.Data.{
  two_tasks, pick, world_on, with_tasks, done_task, pending_task, message,
}
use durable_work_flow_engine.Tests.Packing.{running_world, task, attempt}

handle_dispatched_task-reports_example :
    is_err (handle_dispatched_task [] message (world_on (with_tasks (pending_task ∷ [])))).result
    ≡ is_error
        (handle_dispatched_task [] message (world_on (with_tasks (pending_task ∷ [])))).outcome
handle_dispatched_task-reports_example =
    handle_dispatched_task-reports [] message (world_on (with_tasks (pending_task ∷ [])))

handle_dispatched_task-done_example :
    (handle_dispatched_task [] message (world_on (with_tasks (done_task ∷ [])))).world.db
    ≡ with_tasks (done_task ∷ [])
handle_dispatched_task-done_example =
    handle_dispatched_task-done [] message (world_on (with_tasks (done_task ∷ []))) done_task refl
      refl

next_run_at-exact_example : next_run_at 5 (pos 30) ≡ 5 + 30 * 1000000000
next_run_at-exact_example = next_run_at-exact 5 30 (omega arith)

failure_is_retried :
    (after_failure pick task attempt (errors_new "no reply") running_world).outcome
    ≡ scheduled_retry
unfolding after_failure schedule_task_retry schedule_task_retry_body transaction update statement
    select_task truncate scan_task_attempt
failure_is_retried = refl

after_success-IsStored_example :
    IsStored two_tasks task attempt empty running_world
      (after_success two_tasks task attempt empty running_world).outcome
      (after_success two_tasks task attempt empty running_world).result
      (after_success two_tasks task attempt empty running_world).world.db
after_success-IsStored_example = after_success-IsStored two_tasks task attempt empty running_world

success_is_advanced : (after_success two_tasks task attempt empty running_world).outcome ≡ advanced
unfolding after_success find_next_task_spec find_task_spec_by_name trim_space
    complete_task_attempt_and_enqueue_next_task complete_and_enqueue_body transaction statement
    select_task update_with_json insert_task insert_outbox_event normalize_json
    make_task_idempotency_key scan_task_instance
success_is_advanced = refl
