-- ===== src/Store/Attempts/Success.antt =====
-- What `CompleteTaskAttempt` writes when it succeeds. Store/Attempts/Handover has this for
-- `CompleteTaskAttemptAndEnqueueNextTask`.
use durable_work_flow_engine.Prelude.{
  ℕ, String, ◌≡◌, ◌⊎◌, refl, sym, subst, ap, ap₂, ◌∙◌, arith, find, some, ◌==◌,
}
use durable_work_flow_engine.Domain.{ok, RawMessage, document, empty, malformed, Json}
use durable_work_flow_engine.Db.{World}
use durable_work_flow_engine.Db.Rows.{Database, TaskRow}
use durable_work_flow_engine.Db.Exec.{
  Exec, counted, statement-ok, ◌>>=◌, ◌>>◌, >>=-ok, transaction-ok, transaction_either,
}
use durable_work_flow_engine.Store.Sql.{
  select_task, set_task, set_attempt, set_execution, normalize_json, update_with_json,
}
use durable_work_flow_engine.Store.Attempts.{
  complete_task_attempt, complete_task_attempt_body, succeeded_attempt, succeeded_task,
  succeeded_execution,
}
use durable_work_flow_engine.Store.Attempts.Start.{select_task-ok}

update_with_json-ok :
    (p : RawMessage) (f : Json → ℕ → Database → Database) (w w' : World) (u : Unit {0})
    → update_with_json p f w ≡ (ok u, w')
    → (j : Json) × (p ≡ document j) × (w'.db ≡ f j w.clock w.db) × (w'.clock ≡ w.clock)
unfolding update_with_json
update_with_json-ok (document j) f w w' u h =
    let ran = statement-ok _ w w' u h in (j, refl, ground arith, ground arith)
update_with_json-ok empty f w w' u h = let ran = statement-ok _ w w' u h in absurd (cc)
update_with_json-ok (malformed t) f w w' u h = let ran = statement-ok _ w w' u h in absurd (cc)

pub same_document : {i j : Json} {p : RawMessage} → p ≡ document i → p ≡ document j → j ≡ i
same_document e d = cc

-- The tables after the attempt and the task are set to succeeded.
abbrev pub succeeded_in : String → String → Json → ℕ → Database → Database
succeeded_in task_id attempt_id output clock db =
    set_task task_id (succeeded_task output clock)
      (set_attempt attempt_id (succeeded_attempt output clock) db)

-- The first three statements of both, before the rest of the transaction.
pub record HasSucceeded (task_id attempt_id : String) (p : RawMessage)
    (rest : String → Exec (Unit {0})) (w v : World) (u : Unit {0}) : Type 0 where
  pub row : TaskRow
  pub stored : Json
  pub after : World
  pub found : find (λ t. t.id == task_id) w.db.task_instances ≡ some row
  pub payload_is : p ≡ document stored
  pub db : after.db ≡ succeeded_in task_id attempt_id stored w.clock w.db
  pub clock : after.clock ≡ w.clock
  pub goes_on : rest row.workflow_execution_id after ≡ (ok u, v)

pub succeeded-HasSucceeded :
    (task_id attempt_id : String) (p : RawMessage) (rest : String → Exec (Unit {0})) (w v : World)
    (u : Unit {0})
    → (select_task task_id >>= λ row.
          update_with_json p (λ j clock. set_attempt attempt_id (succeeded_attempt j clock))
          >> (update_with_json p (λ j clock. set_task task_id (succeeded_task j clock))
              >> rest row.workflow_execution_id))
        (counted w)
      ≡ (ok u, v)
    → HasSucceeded task_id attempt_id p rest w v u
succeeded-HasSucceeded task_id attempt_id p rest w v u ran =
    let f : Json → ℕ → Database → Database =
      λ j clock. set_attempt attempt_id (succeeded_attempt j clock) in
    let g : Json → ℕ → Database → Database = λ j clock. set_task task_id (succeeded_task j clock) in
    let (row, w1, selected, rest1) = >>=-ok (select_task task_id) _ (counted w) v u ran in
    let (found, same) = select_task-ok task_id (counted w) w1 row selected in
    let (u2, w2, first, rest2) = >>=-ok (update_with_json p f) _ w1 v u rest1 in
    let (u3, w3, second, third) = >>=-ok (update_with_json p g) _ w2 v u rest2 in
    let (j, is_j, db2, clock2) = update_with_json-ok p f w1 w2 u2 first in
    let (j3, is_j3, db3, clock3) = update_with_json-ok p g w2 w3 u3 second in
    let c1 : w1.clock ≡ w.clock = ap (λ x. x.clock) same in
    let c2 : w2.clock ≡ w.clock = clock2 ∙ c1 in
    record {
      row = row;
      stored = j;
      after = w3;
      found = found;
      payload_is = is_j;
      db =
          db3
          ∙ ap₂ (λ x y. g x y w2.db) (same_document is_j is_j3) c2
          ∙ ap (g j w.clock) (db2 ∙ ap₂ (f j) c1 (ap (λ x. x.db) same));
      clock = clock3 ∙ c2;
      goes_on = third;
    }

-- The task's row, the output that is stored, and what became of the tables.
pub record IsCompleted (task_id attempt_id : String) (output : RawMessage) (w : World)
    (db : Database) : Type 0 where
  pub row : TaskRow
  pub stored : Json
  pub found : find (λ t. t.id == task_id) w.db.task_instances ≡ some row
  pub output_is : normalize_json output ≡ document stored
  pub written :
      db
      ≡ set_execution row.workflow_execution_id
          (succeeded_execution stored w.clock)
          (succeeded_in task_id attempt_id stored w.clock w.db)

-- The same of the body of the transaction, at the world in which it runs.
complete_task_attempt_body-ok :
    (task_id attempt_id : String) (output : RawMessage) (w v : World) (u : Unit {0})
    → complete_task_attempt_body task_id attempt_id output (counted w) ≡ (ok u, v)
    → IsCompleted task_id attempt_id output w v.db
unfolding complete_task_attempt_body
complete_task_attempt_body-ok task_id attempt_id output w v u ran =
    let p = normalize_json output in
    let k : String → Json → ℕ → Database → Database =
      λ id j clock. set_execution id (succeeded_execution j clock) in
    let s =
      succeeded-HasSucceeded task_id attempt_id p (λ id. update_with_json p (k id)) w v u ran in
    let exec = s.row.workflow_execution_id in
    let (j4, is_j4, db4, clock4) = update_with_json-ok p (k exec) s.after v u s.goes_on in
    record {
      row = s.row;
      stored = s.stored;
      found = s.found;
      output_is = s.payload_is;
      written =
          db4
          ∙ ap₂ (λ x y. k exec x y s.after.db) (same_document s.payload_is is_j4) s.clock
          ∙ ap (k exec s.stored w.clock) s.db;
    }

-- When `CompleteTaskAttempt` succeeds, it has found the task and set the attempt, the task and the
-- task's execution to succeeded with the output, and changed nothing else.
pub complete_task_attempt-ok :
    (task_id attempt_id : String) (output : RawMessage) (w w' : World) (u : Unit {0})
    → complete_task_attempt task_id attempt_id output w ≡ (ok u, w')
    → IsCompleted task_id attempt_id output w w'.db
unfolding complete_task_attempt
complete_task_attempt-ok task_id attempt_id output w w' u h =
    let (v, ran, written) =
      transaction-ok (complete_task_attempt_body task_id attempt_id output) w w' u h in
    subst (IsCompleted task_id attempt_id output w) (sym written)
      (complete_task_attempt_body-ok task_id attempt_id output w v u ran)

-- Whether it succeeds or fails, it writes all of this or nothing.
pub complete_task_attempt_either :
    (task_id attempt_id : String) (output : RawMessage) (w : World)
    → ((complete_task_attempt task_id attempt_id output w).1.db ≡ w.db)
      ⊎ IsCompleted task_id attempt_id output w
          (complete_task_attempt task_id attempt_id output w).1.db
unfolding complete_task_attempt
complete_task_attempt_either task_id attempt_id output w =
    transaction_either (IsCompleted task_id attempt_id output w)
      (complete_task_attempt_body task_id attempt_id output) w
      λ u v ran. complete_task_attempt_body-ok task_id attempt_id output w v u ran
