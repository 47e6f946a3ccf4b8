-- ===== src/Store/Numbering/Untouched.antt =====
-- The statements that leave the tasks and the attempts alone.
use durable_work_flow_engine.Prelude.{String, ◌≡◌, Option, none, some, List, arith}
use durable_work_flow_engine.Domain.{RawMessage, malformed, document, Error, DispatchTaskPayload}
use durable_work_flow_engine.Db.{World}
use durable_work_flow_engine.Db.Rows.{Database, TaskRow, AttemptRow, IdempotencyRow}
use durable_work_flow_engine.Db.Preserves.{
  Preserves, Preserves-statement, Preserves-bind, Preserves-if, Preserves-pure, Preserves-raise,
  Preserves-lift,
}
use durable_work_flow_engine.Store.Sql.{insert_outbox_event, normalize_json}
use durable_work_flow_engine.Store.Executions.{create_workflow_definition, insert_execution}
use durable_work_flow_engine.Store.Outbox.{mark_outbox_dispatched, record_outbox_failure}
use durable_work_flow_engine.Store.Idempotency.{
  begin_idempotent_task, complete_idempotent_task, release_idempotent_task, try_insert_record,
  insert_where_absent, select_record, update_record, find_record,
}

-- The tasks and the attempts are these.
pub record Frame (tasks : List TaskRow) (attempts : List AttemptRow) (db : Database) : Type 0 where
  pub same_tasks : db.task_instances ≡ tasks
  pub same_attempts : db.task_attempts ≡ attempts

module _ (ts : List TaskRow) (rows : List AttemptRow) where
  pub insert_execution-Frame :
      (d : String) (input : RawMessage) → Preserves (Frame ts rows) (insert_execution d input)
  unfolding insert_execution
  insert_execution-Frame d (document j) = Preserves-statement _ record { at = λ w c. ground arith }
  insert_execution-Frame d _ = Preserves-statement _ record { at = λ w c. c }

  pub create_workflow_definition-Frame :
      (n s : String) (input : RawMessage)
      → Preserves (Frame ts rows) (create_workflow_definition n s input)
  unfolding create_workflow_definition normalize_json
  create_workflow_definition-Frame n s (malformed t) =
      Preserves-statement _ record { at = λ w c. c }
  create_workflow_definition-Frame n s _ = Preserves-statement _ record { at = λ w c. ground arith }

  pub insert_outbox_event-Frame :
      (p : DispatchTaskPayload) → Preserves (Frame ts rows) (insert_outbox_event p)
  unfolding insert_outbox_event
  insert_outbox_event-Frame p = Preserves-statement _ record { at = λ w c. ground arith }

  pub mark_outbox_dispatched-Frame :
      (id : String) → Preserves (Frame ts rows) (mark_outbox_dispatched id)
  unfolding mark_outbox_dispatched
  mark_outbox_dispatched-Frame id = Preserves-statement _ record { at = λ w c. ground arith }

  pub record_outbox_failure-Frame :
      (id : String) (e : Error) → Preserves (Frame ts rows) (record_outbox_failure id e)
  unfolding record_outbox_failure
  record_outbox_failure-Frame id e = Preserves-statement _ record { at = λ w c. ground arith }

  insert_where_absent-Frame :
      (o : Option IdempotencyRow) (h k owner : String) (w : World)
      → Frame ts rows w.db
      → Frame ts rows (insert_where_absent o h k owner w).1.db
  unfolding insert_where_absent
  insert_where_absent-Frame (some r) h k owner w c = c
  insert_where_absent-Frame none h k owner w c = ground arith

  try_insert_record-Frame :
      (h k owner : String) → Preserves (Frame ts rows) (try_insert_record h k owner)
  unfolding try_insert_record
  try_insert_record-Frame h k owner =
      Preserves-statement _
        record { at = λ w c. insert_where_absent-Frame (find_record h k w.db) h k owner w c }

  pub begin_idempotent_task-Frame :
      (h k owner : String) → Preserves (Frame ts rows) (begin_idempotent_task h k owner)
  unfolding begin_idempotent_task select_record
  begin_idempotent_task-Frame h k owner =
      Preserves-bind _ _ (try_insert_record-Frame h k owner) λ inserted.
        Preserves-if inserted _ _ (Preserves-pure _) (
          Preserves-bind _ _ (Preserves-statement _ record { at = λ w c. c })
            λ row. Preserves-lift _)

  update_record-Frame :
      (h k owner : String) (response : RawMessage)
      → Preserves (Frame ts rows) (update_record h k owner response)
  unfolding update_record
  update_record-Frame h k owner (document j) =
      Preserves-statement _
        record { at = λ w c. record { same_tasks = c.same_tasks; same_attempts = c.same_attempts } }
  update_record-Frame h k owner _ = Preserves-statement _ record { at = λ w c. c }

  pub complete_idempotent_task-Frame :
      (h k owner : String) (response : RawMessage)
      → Preserves (Frame ts rows) (complete_idempotent_task h k owner response)
  unfolding complete_idempotent_task
  complete_idempotent_task-Frame h k owner response =
      Preserves-bind _ _ (update_record-Frame h k owner (normalize_json response))
        λ affected. Preserves-if affected _ _ (Preserves-pure _) (Preserves-raise _)

  pub release_idempotent_task-Frame :
      (h k owner : String) → Preserves (Frame ts rows) (release_idempotent_task h k owner)
  unfolding release_idempotent_task
  release_idempotent_task-Frame h k owner =
      Preserves-statement _
        record { at = λ w c. record { same_tasks = c.same_tasks; same_attempts = c.same_attempts } }
