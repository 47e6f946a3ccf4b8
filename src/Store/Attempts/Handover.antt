-- ===== src/Store/Attempts/Handover.antt =====
-- What `CompleteTaskAttemptAndEnqueueNextTask` writes when it succeeds.
use durable_work_flow_engine.Prelude.{
  String, ◌≡◌, ◌⊎◌, refl, sym, subst, ap, ap₂, ◌∙◌, arith, find, some, ◌==◌,
}
use durable_work_flow_engine.Domain.{
  ok, RawMessage, document, empty, malformed, Json, DispatchTaskPayload,
}
use durable_work_flow_engine.Db.{World}
use durable_work_flow_engine.Db.Rows.{Database, TaskRow}
use durable_work_flow_engine.Db.Exec.{
  counted, statement-ok, ◌>>=◌, >>=-ok, transaction-ok, transaction_either,
}
use durable_work_flow_engine.Store.Sql.{
  normalize_json, insert_task, new_task, add_task, insert_outbox_event, new_outbox_event, add_event,
}
use durable_work_flow_engine.Store.Attempts.{
  complete_task_attempt_and_enqueue_next_task, complete_and_enqueue_body,
}
use durable_work_flow_engine.Store.Attempts.Success.{
  same_document, succeeded_in, succeeded-HasSucceeded,
}

pub insert_task-ok :
    (execution name handler : String) (p : RawMessage) (w w' : World) (row : TaskRow)
    → insert_task execution name handler p w ≡ (ok row, w')
    → (j : Json) × (p ≡ document j)
      × (row ≡ new_task (w.uuids w.drawn) execution name handler j w.clock)
      × (w'.db ≡ add_task row w.db)
      × (w'.clock ≡ w.clock)
unfolding insert_task
insert_task-ok execution name handler (document j) w w' row h =
    let ran = statement-ok _ w w' row h in (j, refl, ground arith, ground arith, ground arith)
insert_task-ok execution name handler empty w w' row h =
    let ran = statement-ok _ w w' row h in absurd (cc)
insert_task-ok execution name handler (malformed t) w w' row h =
    let ran = statement-ok _ w w' row h in absurd (cc)

pub insert_outbox_event-ok :
    (p : DispatchTaskPayload) (w w' : World) (u : Unit {0})
    → insert_outbox_event p w ≡ (ok u, w')
    → w'.db ≡ add_event (new_outbox_event (w.uuids w.drawn) p w.clock) w.db
unfolding insert_outbox_event
insert_outbox_event-ok p w w' u h = let ran = statement-ok _ w w' u h in ground arith

-- What `CompleteTaskAttempt` writes to the attempt and the task, with the next task and the event that announces it.
pub record IsAdvanced (task_id attempt_id name handler : String) (output : RawMessage) (w : World)
    (db : Database) : Type 0 where
  pub row : TaskRow
  pub stored : Json
  pub next_id : String
  pub event_id : String
  pub found : find (λ t. t.id == task_id) w.db.task_instances ≡ some row
  pub output_is : normalize_json output ≡ document stored
  pub written :
      db
      ≡ add_event
          (new_outbox_event event_id
            (record {
              task_id = next_id;
              execution_id = row.workflow_execution_id;
              handler_key = handler;
            })
            w.clock)
          (add_task
            (new_task next_id row.workflow_execution_id name handler stored w.clock)
            (succeeded_in task_id attempt_id stored w.clock w.db))

-- It holds of the body of the transaction, at the world in which it runs.
pub complete_and_enqueue_body-ok :
    (task_id attempt_id name handler : String) (output : RawMessage) (w v : World) (u : Unit {0})
    → complete_and_enqueue_body task_id attempt_id name handler output (counted w) ≡ (ok u, v)
    → IsAdvanced task_id attempt_id name handler output w v.db
unfolding complete_and_enqueue_body
complete_and_enqueue_body-ok task_id attempt_id name handler output w v u ran =
    let p = normalize_json output in
    let announce : String → String → DispatchTaskPayload =
      λ exec id. record { task_id = id; execution_id = exec; handler_key = handler } in
    let s =
      succeeded-HasSucceeded task_id attempt_id p
        (λ exec.
          insert_task exec name handler p >>= λ next. insert_outbox_event (announce exec next.id))
        w v u ran in
    let exec = s.row.workflow_execution_id in
    let (next, w4, third, fourth) =
      >>=-ok (insert_task exec name handler p) _ s.after v u s.goes_on in
    let (j4, is_j4, row4, db4, clock4) = insert_task-ok exec name handler p s.after w4 next third in
    let db5 = insert_outbox_event-ok (announce exec next.id) w4 v u fourth in
    let id = s.after.uuids s.after.drawn in
    let event = w4.uuids w4.drawn in
    let row : next ≡ new_task id exec name handler s.stored w.clock =
      row4
      ∙ ap₂ (λ x y. new_task id exec name handler x y) (same_document s.payload_is is_j4) s.clock in
    record {
      row = s.row;
      stored = s.stored;
      next_id = id;
      event_id = event;
      found = s.found;
      output_is = s.payload_is;
      written =
          db5
          ∙ ap₂ (λ x y. add_event (new_outbox_event event (announce exec x) y) w4.db)
              (ap (λ r. r.id) row) (clock4 ∙ s.clock)
          ∙ ap (add_event (new_outbox_event event (announce exec id) w.clock))
              (db4 ∙ ap₂ add_task row s.db);
    }

-- When `CompleteTaskAttemptAndEnqueueNextTask` succeeds, it has found the task, set the attempt and
-- the task to succeeded with the output, added the next task of the same execution, pending and with
-- the output as its input, and the event that announces it, and changed nothing else.
pub complete_task_attempt_and_enqueue_next_task-ok :
    (task_id attempt_id name handler : String) (output : RawMessage) (w w' : World) (u : Unit {0})
    → complete_task_attempt_and_enqueue_next_task task_id attempt_id name handler output w
      ≡ (ok u, w')
    → IsAdvanced task_id attempt_id name handler output w w'.db
unfolding complete_task_attempt_and_enqueue_next_task
complete_task_attempt_and_enqueue_next_task-ok task_id attempt_id name handler output w w' u h =
    let (v, ran, written) =
      transaction-ok (complete_and_enqueue_body task_id attempt_id name handler output) w w' u h in
    subst (IsAdvanced task_id attempt_id name handler output w) (sym written)
      (complete_and_enqueue_body-ok task_id attempt_id name handler output w v u ran)

-- Whether it succeeds or fails, it writes all of this or nothing.
pub complete_task_attempt_and_enqueue_next_task_either :
    (task_id attempt_id name handler : String) (output : RawMessage) (w : World)
    → ((complete_task_attempt_and_enqueue_next_task task_id attempt_id name handler output w).1.db
        ≡ w.db)
      ⊎ IsAdvanced task_id attempt_id name handler output w
          (complete_task_attempt_and_enqueue_next_task task_id attempt_id name handler output
            w).1.db
unfolding complete_task_attempt_and_enqueue_next_task
complete_task_attempt_and_enqueue_next_task_either task_id attempt_id name handler output w =
    transaction_either (IsAdvanced task_id attempt_id name handler output w)
      (complete_and_enqueue_body task_id attempt_id name handler output) w
      λ u v ran. complete_and_enqueue_body-ok task_id attempt_id name handler output w v u ran
