-- ===== src/Store/Attempts/Advance.antt =====
-- The unique key of tasks when `CompleteTaskAttemptAndEnqueueNextTask` adds the next one.
use durable_work_flow_engine.Prelude.{
  ℕ, String, ◌≡◌, refl, sym, subst, ◌∙◌, inl, inr, true, some, arith, find, ◌==◌, same_some,
  any-update_where,
}
use durable_work_flow_engine.Domain.{RawMessage, Json, ok}
use durable_work_flow_engine.Db.{World}
use durable_work_flow_engine.Db.Rows.{Database, TaskRow}
use durable_work_flow_engine.Db.Exec.{counted, statement-ok, >>=-ok, transaction_cases}
use durable_work_flow_engine.Store.Sql.{
  normalize_json, select_task, insert_task, has_task_key, make_task_idempotency_key, set_task,
  set_attempt, update_with_json,
}
use durable_work_flow_engine.Store.Attempts.{
  complete_task_attempt_and_enqueue_next_task, complete_and_enqueue_body, succeeded_task,
  succeeded_attempt,
}
use durable_work_flow_engine.Store.Attempts.Start.{select_task-ok}
use durable_work_flow_engine.Store.Calls.Closed.{update_with_json-preserves}

abbrev IsTaken : String → Database → Type 0
IsTaken key db = has_task_key key db ≡ true

insert_task-free :
    (execution name handler : String) (input : RawMessage) (w w' : World) (row : TaskRow)
    → insert_task execution name handler input w ≡ (ok row, w')
    → IsTaken (make_task_idempotency_key execution name) w.db
    → ⊥
unfolding insert_task
insert_task-free execution name handler input w w' row h taken =
    let ran = statement-ok _ w w' row h in ground arith

body-taken :
    (task_id attempt_id name handler : String) (output : RawMessage) (w w' : World) (u : Unit {0})
    (row : TaskRow)
    → complete_and_enqueue_body task_id attempt_id name handler output w ≡ (ok u, w')
    → find (λ t. t.id == task_id) w.db.task_instances ≡ some row
    → IsTaken (make_task_idempotency_key row.workflow_execution_id name) w.db
    → ⊥
unfolding complete_and_enqueue_body
body-taken task_id attempt_id name handler output w w' u row h found taken =
    let p = normalize_json output in
    let (r, w1, selected, h1) = >>=-ok (select_task task_id) _ w w' u h in
    let (found', same) = select_task-ok task_id w w1 r selected in
    let own : row ≡ r = same_some (sym found ∙ found') in
    let key = make_task_idempotency_key r.workflow_execution_id name in
    let f : Json → ℕ → Database → Database =
      λ j clock. set_attempt attempt_id (succeeded_attempt j clock) in
    let g : Json → ℕ → Database → Database = λ j clock. set_task task_id (succeeded_task j clock) in
    let taken1 : IsTaken key w1.db =
      subst (λ x. IsTaken key x.db) (sym same)
        (subst (λ x. IsTaken (make_task_idempotency_key x.workflow_execution_id name) w.db) own
          taken) in
    let (u2, w2, e2, h2) = >>=-ok (update_with_json p f) _ w1 w' u h1 in
    let (u3, w3, e3, h3) = >>=-ok (update_with_json p g) _ w2 w' u h2 in
    let (n, w4, e4, h4) =
      >>=-ok (insert_task r.workflow_execution_id name handler p) _ w3 w' u h3 in
    let taken2 =
      (update_with_json-preserves {P = IsTaken key} p f λ j clock db c. c).at w1 taken1 in
    let taken2' : IsTaken key w2.db = subst (λ x. IsTaken key x.1.db) e2 taken2 in
    let taken3 =
      (update_with_json-preserves {P = IsTaken key} p g λ j clock db c.
          any-update_where (λ t. t.idempotency_key == key) (λ t. t.id == task_id)
            (succeeded_task j clock) db.task_instances (λ t. refl)
          ∙ c).at
        w2 taken2' in
    let taken3' : IsTaken key w3.db = subst (λ x. IsTaken key x.1.db) e3 taken3 in
    insert_task-free r.workflow_execution_id name handler p w3 w4 n e4 taken3'

-- Where the execution already has a task of the next name, `CompleteTaskAttemptAndEnqueueNextTask`
-- changes nothing in the database, whatever faults occur: the task is not completed and no event is
-- added. In a workflow whose tasks form a cycle, which validation accepts, the task that closes the
-- cycle meets this at every attempt.
pub complete_task_attempt_and_enqueue_next_task-taken :
    (task_id attempt_id name handler : String) (output : RawMessage) (w : World) (row : TaskRow)
    → find (λ t. t.id == task_id) w.db.task_instances ≡ some row
    → has_task_key (make_task_idempotency_key row.workflow_execution_id name) w.db ≡ true
    → (complete_task_attempt_and_enqueue_next_task task_id attempt_id name handler output w).1.db
      ≡ w.db
unfolding complete_task_attempt_and_enqueue_next_task
complete_task_attempt_and_enqueue_next_task-taken task_id attempt_id name handler output w row found
      taken =
    elim (transaction_cases (complete_and_enqueue_body task_id attempt_id name handler output) w) [
      | inl kept ↦ kept
      | inr (u, v, ran, written) ↦
          absurd
            (body-taken task_id attempt_id name handler output (counted w) v u row ran found taken)
    ]
