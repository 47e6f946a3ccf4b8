-- ===== src/Tests/Packing.antt =====
-- Databases with one execution of the workflow of two tasks, before and while its first task is at work.
use durable_work_flow_engine.Prelude.{refl, [], ◌∷◌}
use durable_work_flow_engine.Domain.{obj, end, TaskInstance, TaskAttempt}
use durable_work_flow_engine.Db.{World, scan_task_instance, scan_task_attempt}
use durable_work_flow_engine.Db.Rows.{Database, TaskRow, AttemptRow}
use durable_work_flow_engine.Store.Attempts.{new_attempt, started_row}
use durable_work_flow_engine.Store.Executions.{new_definition, new_execution}
use durable_work_flow_engine.Store.Calls.{empty_database}
use durable_work_flow_engine.Store.Consistency.{IsConsistent}
use durable_work_flow_engine.Store.Consistency.Rows.{new_task-sane, new_execution-sane}
use durable_work_flow_engine.Tests.Data.{two_tasks_json, pending_task, world_on}

-- The event of the first task is dispatched.
abbrev pub packing_db : Database
packing_db = record empty_database {
  workflow_definitions = new_definition "d1" "packing" "" two_tasks_json 800 ∷ [];
  workflow_executions = new_execution "e1" "d1" (obj end) 900 ∷ [];
  task_instances = pending_task ∷ [];
}

pub packing_db-IsConsistent : IsConsistent packing_db
packing_db-IsConsistent = record {
  definition_ids = (tt, tt);
  definition_names = (tt, tt);
  execution_ids = (tt, tt);
  task_ids = (tt, tt);
  task_keys = (tt, tt);
  attempt_ids = tt;
  event_ids = tt;
  record_keys = tt;
  execution_definitions = (refl, tt);
  task_executions = (refl, tt);
  attempt_tasks = tt;
  record_owners = tt;
  sane_tasks = (new_task-sane "t1" "e1" "pick" "sample.echo" (obj end) 900, tt);
  sane_executions = (new_execution-sane "e1" "d1" (obj end) 900, tt);
  sane_attempts = tt;
}

abbrev running_task : TaskRow
running_task = started_row 1 950 pending_task

abbrev first_attempt : AttemptRow
first_attempt = new_attempt "a1" "t1" 1 950

abbrev pub running_world : World
running_world =
    world_on
      (record packing_db { task_instances = running_task ∷ []; task_attempts = first_attempt ∷ [] })

abbrev pub task : TaskInstance
task = scan_task_instance running_task

abbrev pub attempt : TaskAttempt
attempt = scan_task_attempt first_attempt
