-- ===== src/Store/Attempts/Failure.antt =====
-- What `ScheduleTaskRetry` and `FailTaskAttempt` write when they succeed.
use durable_work_flow_engine.Prelude.{
  ℕ, String, ◌≡◌, ap, ap₂, sym, subst, ◌⊎◌, ◌∙◌, List, arith, find, some, ◌==◌,
}
use durable_work_flow_engine.Domain.{ok}
use durable_work_flow_engine.Db.{World}
use durable_work_flow_engine.Db.Rows.{Database, TaskRow}
use durable_work_flow_engine.Db.Exec.{
  counted, statement-ok, >>=-ok, transaction-ok, transaction_either,
}
use durable_work_flow_engine.Store.Sql.{
  select_task, set_task, set_attempt, set_execution, truncate, update,
}
use durable_work_flow_engine.Store.Attempts.{
  schedule_task_retry, schedule_task_retry_body, fail_task_attempt, fail_task_attempt_body,
  failed_attempt, retried_task, dead_lettered_task, failed_execution,
}
use durable_work_flow_engine.Store.Attempts.Start.{select_task-ok}

pub update-ok :
    (f : ℕ → Database → Database) (w w' : World) (u : Unit {0})
    → update f w ≡ (ok u, w')
    → (w'.db ≡ f w.clock w.db) × (w'.clock ≡ w.clock)
unfolding update
update-ok f w w' u h = let ran = statement-ok _ w w' u h in (ground arith, ground arith)

-- The tables after a retry is scheduled.
abbrev pub scheduled : String → String → List ℕ → ℕ → ℕ → Database → Database
scheduled task_id attempt_id text at clock db =
    set_task task_id (retried_task (truncate text 1000) at clock)
      (set_attempt attempt_id (failed_attempt (truncate text 1000) clock) db)

schedule_task_retry_body-ok :
    (task_id attempt_id : String) (text : List ℕ) (at : ℕ) (w v : World) (u : Unit {0})
    → schedule_task_retry_body task_id attempt_id text at (counted w) ≡ (ok u, v)
    → v.db ≡ scheduled task_id attempt_id text at w.clock w.db
unfolding schedule_task_retry_body
schedule_task_retry_body-ok task_id attempt_id text at w v u ran =
    let f : ℕ → Database → Database =
      λ clock. set_attempt attempt_id (failed_attempt (truncate text 1000) clock) in
    let g : ℕ → Database → Database =
      λ clock. set_task task_id (retried_task (truncate text 1000) at clock) in
    let (u1, w1, first, second) = >>=-ok (update f) _ (counted w) v u ran in
    let (db1, clock1) = update-ok f (counted w) w1 u1 first in
    let (db2, clock2) = update-ok g w1 v u second in db2 ∙ ap₂ g clock1 db1

-- When `ScheduleTaskRetry` succeeds, it has set the attempt to failed and the task to pending with
-- the time of the next run, both with the error cut to 1000 bytes, and changed nothing else.
pub schedule_task_retry-ok :
    (task_id attempt_id : String) (text : List ℕ) (at : ℕ) (w w' : World) (u : Unit {0})
    → schedule_task_retry task_id attempt_id text at w ≡ (ok u, w')
    → w'.db ≡ scheduled task_id attempt_id text at w.clock w.db
unfolding schedule_task_retry
schedule_task_retry-ok task_id attempt_id text at w w' u h =
    let (v, ran, written) =
      transaction-ok (schedule_task_retry_body task_id attempt_id text at) w w' u h in
    written ∙ schedule_task_retry_body-ok task_id attempt_id text at w v u ran

-- Whether it succeeds or fails, it writes all of this or nothing.
pub schedule_task_retry_either :
    (task_id attempt_id : String) (text : List ℕ) (at : ℕ) (w : World)
    → ((schedule_task_retry task_id attempt_id text at w).1.db ≡ w.db)
      ⊎ ((schedule_task_retry task_id attempt_id text at w).1.db
          ≡ scheduled task_id attempt_id text at w.clock w.db)
unfolding schedule_task_retry
schedule_task_retry_either task_id attempt_id text at w =
    transaction_either (λ db. db ≡ scheduled task_id attempt_id text at w.clock w.db)
      (schedule_task_retry_body task_id attempt_id text at) w
      λ u v ran. schedule_task_retry_body-ok task_id attempt_id text at w v u ran

-- The tables after a task is dead-lettered.
abbrev pub dead_lettered_in : String → String → String → List ℕ → ℕ → Database → Database
dead_lettered_in execution_id task_id attempt_id text clock db =
    set_execution execution_id (failed_execution (truncate text 1000) clock) (
      set_task task_id (dead_lettered_task (truncate text 1000) clock)
        (set_attempt attempt_id (failed_attempt (truncate text 1000) clock) db))

-- The task's row, and what became of the tables.
abbrev pub DeadLettered : String → String → List ℕ → World → Database → Type 0
DeadLettered task_id attempt_id text w db =
    (row : TaskRow) × (find (λ t. t.id == task_id) w.db.task_instances ≡ some row)
    × (db ≡ dead_lettered_in row.workflow_execution_id task_id attempt_id text w.clock w.db)

fail_task_attempt_body-ok :
    (task_id attempt_id : String) (text : List ℕ) (w v : World) (u : Unit {0})
    → fail_task_attempt_body task_id attempt_id text (counted w) ≡ (ok u, v)
    → DeadLettered task_id attempt_id text w v.db
unfolding fail_task_attempt_body
fail_task_attempt_body-ok task_id attempt_id text w v u ran =
    let s = truncate text 1000 in
    let f : ℕ → Database → Database = λ clock. set_attempt attempt_id (failed_attempt s clock) in
    let g : ℕ → Database → Database = λ clock. set_task task_id (dead_lettered_task s clock) in
    let (row, w1, selected, rest1) = >>=-ok (select_task task_id) _ (counted w) v u ran in
    let (found, same) = select_task-ok task_id (counted w) w1 row selected in
    let k : ℕ → Database → Database =
      λ clock. set_execution row.workflow_execution_id (failed_execution s clock) in
    let (u2, w2, first, rest2) = >>=-ok (update f) _ w1 v u rest1 in
    let (u3, w3, second, third) = >>=-ok (update g) _ w2 v u rest2 in
    let (db2, clock2) = update-ok f w1 w2 u2 first in
    let (db3, clock3) = update-ok g w2 w3 u3 second in
    let (db4, clock4) = update-ok k w3 v u third in
    let start : w1.clock ≡ w.clock = ap (λ x. x.clock) same in
    let start2 : w2.clock ≡ w.clock = clock2 ∙ start in
    (
      row,
      found,
      db4 ∙ ap₂ k (clock3 ∙ start2) (db3 ∙ ap₂ g start2 (db2 ∙ ap₂ f start (ap (λ x. x.db) same))),
    )

-- When `FailTaskAttempt` succeeds, it has found the task and set the attempt to failed, the task to
-- dead-lettered and the task's execution to failed, and changed nothing else.
pub fail_task_attempt-ok :
    (task_id attempt_id : String) (text : List ℕ) (w w' : World) (u : Unit {0})
    → fail_task_attempt task_id attempt_id text w ≡ (ok u, w')
    → DeadLettered task_id attempt_id text w w'.db
unfolding fail_task_attempt
fail_task_attempt-ok task_id attempt_id text w w' u h =
    let (v, ran, written) =
      transaction-ok (fail_task_attempt_body task_id attempt_id text) w w' u h in
    subst (DeadLettered task_id attempt_id text w) (sym written)
      (fail_task_attempt_body-ok task_id attempt_id text w v u ran)

-- Whether it succeeds or fails, it writes all of this or nothing.
pub fail_task_attempt_either :
    (task_id attempt_id : String) (text : List ℕ) (w : World)
    → ((fail_task_attempt task_id attempt_id text w).1.db ≡ w.db)
      ⊎ DeadLettered task_id attempt_id text w (fail_task_attempt task_id attempt_id text w).1.db
unfolding fail_task_attempt
fail_task_attempt_either task_id attempt_id text w =
    transaction_either (DeadLettered task_id attempt_id text w)
      (fail_task_attempt_body task_id attempt_id text) w
      λ u v ran. fail_task_attempt_body-ok task_id attempt_id text w v u ran
