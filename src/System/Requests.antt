-- ===== src/System/Requests.antt =====
-- The requests of clients, as internal/orchestrator/service.go serves them, forget no task.
use durable_work_flow_engine.Prelude.{
  ℕ, String, arith, ◌≡◌, refl, ap, sym, subst, ◌∙◌, inl, inr, Bool-cases, not, if◌then◌else◌,
}
use durable_work_flow_engine.Domain.{
  RawMessage, document, empty, malformed, ok, DispatchTaskPayload, task_not_replayable,
  TaskInstance,
}
use durable_work_flow_engine.Db.{World, Pipe, scan_task_instance}
use durable_work_flow_engine.Db.Rows.{Database, TaskRow}
use durable_work_flow_engine.Db.Exec.{
  Exec, pure, raise, counted, statement-ok, transaction_cases, ◌>>=◌, ◌>>◌, >>=-ok,
}
use durable_work_flow_engine.Db.Preserves.{Preserves, Preserves-statement}
use durable_work_flow_engine.Store.Sql.{
  select_task, insert_task, insert_outbox_event, set_task, set_execution, add_event,
  new_outbox_event, update, normalize_json,
}
use durable_work_flow_engine.Store.Executions.{
  create_workflow_definition, create_execution_and_task, create_execution_and_task_body,
  insert_execution, replay_dead_lettered_task, replay_dead_lettered_task_body, update_task_replayed,
  is_dead_lettered, replayed_task, replayed_execution,
}
use durable_work_flow_engine.Store.Attempts.Start.{select_task-ok, row_or_none-ok, find_id}
use durable_work_flow_engine.Store.Attempts.Failure.{update-ok}
use durable_work_flow_engine.Store.Attempts.Handover.{insert_task-ok, insert_outbox_event-ok}
use durable_work_flow_engine.System.Coverage.{
  WaitingEvent, announced, NoneLost, tables, tables-NoneLost, add_event-NoneLost,
  add_event-Announces, set_task-NoneLost,
}
use durable_work_flow_engine.System.Guarding.{announced_task-NoneLost}

same-NoneLost :
    {A : Type 0} (m : Exec A) (q : Pipe)
    → ((w : World) → tables (m w).1 ≡ tables w)
    → Preserves (λ db. NoneLost db q) m
same-NoneLost m q same = record { at = λ w h. tables-NoneLost w (m w).1 q (same w) h }

module _ (q : Pipe) where
  abbrev Kept : Database → Type 0
  Kept db = NoneLost db q

  insert_execution-NoneLost :
      (d : String) (input : RawMessage) → Preserves Kept (insert_execution d input)
  unfolding insert_execution
  insert_execution-NoneLost d (document j) =
      Preserves-statement _ (same-NoneLost _ q λ w. ground arith)
  insert_execution-NoneLost d _ = Preserves-statement _ record { at = λ w h. h }

  pub create_workflow_definition-NoneLost :
      (name description : String) (definition : RawMessage)
      → Preserves Kept (create_workflow_definition name description definition)
  unfolding create_workflow_definition normalize_json
  create_workflow_definition-NoneLost name description (document j) =
      Preserves-statement _ (same-NoneLost _ q λ w. ground arith)
  create_workflow_definition-NoneLost name description empty =
      Preserves-statement _ (same-NoneLost _ q λ w. ground arith)
  create_workflow_definition-NoneLost name description (malformed t) =
      Preserves-statement _ record { at = λ w h. h }

  pub create_execution_and_task-NoneLost :
      (d : String) (input : RawMessage) (name key : String)
      → Preserves Kept (create_execution_and_task d input name key)
  unfolding create_execution_and_task create_execution_and_task_body
  create_execution_and_task-NoneLost d input name key = record {
    at = λ w h. elim (transaction_cases (create_execution_and_task_body d input name key) w) [
      | inl kept ↦ subst Kept (sym kept) h
      | inr (r, v, ran, written) ↦
          let p = normalize_json input in
          let (execution, w1, first, rest1) = >>=-ok (insert_execution d p) _ (counted w) v r ran in
          let h1 : Kept w1.db =
            subst (λ x. Kept x.1.db) first ((insert_execution-NoneLost d p).at (counted w) h) in
          let (task, w2, second, rest2) =
            >>=-ok (insert_task execution.id name key p) _ w1 v r rest1 in
          let (j, is_j, row, db2, clock2) =
            insert_task-ok execution.id name key p w1 w2 task second in
          let payload : DispatchTaskPayload = record {
            task_id = task.id;
            execution_id = execution.id;
            handler_key = task.handler_key;
          } in
          let (u, w3, third, rest3) = >>=-ok (insert_outbox_event payload) _ w2 v r rest2 in
          let db3 = insert_outbox_event-ok payload w2 w3 u third in
          let last : w3.db ≡ v.db = ap (λ x. x.1.db) rest3 in
          let event = w2.uuids w2.drawn in
          subst Kept
            (sym (
              written
              ∙ sym last
              ∙ db3
              ∙ ap (add_event (new_outbox_event event payload w2.clock)) db2))
            (announced_task-NoneLost event payload w2.clock task w1.db q refl h1)
    ];
  }

  -- `UPDATE ... RETURNING` returns the row of the id.
  update_task_replayed-ok :
      (id : String) (w w' : World) (row : TaskRow)
      → update_task_replayed id w ≡ (ok row, w')
      → (w'.db ≡ set_task id (replayed_task w.clock) w.db) × (row.id ≡ id)
  unfolding update_task_replayed
  update_task_replayed-ok id w w' row h =
      let u = record (counted w) { db = set_task id (replayed_task w.clock) w.db } in
      let (found, same) = row_or_none-ok _ u w' row (statement-ok _ w w' row h) in
      (ap (λ x. x.db) same, find_id id u.db.task_instances row found)

  pub replay_dead_lettered_task-NoneLost :
      (id : String) → Preserves Kept (replay_dead_lettered_task id)
  unfolding replay_dead_lettered_task replay_dead_lettered_task_body
  replay_dead_lettered_task-NoneLost id = record {
    at = λ w h. elim (transaction_cases (replay_dead_lettered_task_body id) w) [
      | inl kept ↦ subst Kept (sym kept) h
      | inr (r, v, ran, written) ↦
          let (row, w1, first, rest1) = >>=-ok (select_task id) _ (counted w) v r ran in
          let (found, same) = select_task-ok id (counted w) w1 row first in
          let h1 : Kept w1.db = subst (λ x. Kept x.db) (sym same) h in
          subst Kept (sym written) (replayed-NoneLost row w1 v r rest1 h1)
    ];
  }
    where
      replayed-NoneLost :
          (row : TaskRow) (w v : World) (r : TaskInstance)
          → (if not (is_dead_lettered row.status) then raise task_not_replayable else (do
            updated ← update_task_replayed row.id
            update (λ clock. set_execution row.workflow_execution_id (replayed_execution clock))
            insert_outbox_event (record {
              task_id = updated.id;
              execution_id = updated.workflow_execution_id;
              handler_key = updated.handler_key;
            })
            pure (scan_task_instance updated)))
              w
            ≡ (ok r, v)
          → Kept w.db
          → Kept v.db
      replayed-NoneLost row w v r ran h = elim (Bool-cases (is_dead_lettered row.status)) [
        | inr other ↦ absurd (ground (arith, rw other at ran))
        | inl dead ↦
            let (updated, w1, first, rest1) =
              >>=-ok (update_task_replayed row.id) _ w v r (rw dead at ran) in
            let (db1, own) = update_task_replayed-ok row.id w w1 updated first in
            let f : ℕ → Database → Database =
              λ clock. set_execution row.workflow_execution_id (replayed_execution clock) in
            let (u2, w2, second, rest2) = >>=-ok (update f) _ w1 v r rest1 in
            let (db2, clock2) = update-ok f w1 w2 u2 second in
            let payload : DispatchTaskPayload = record {
              task_id = updated.id;
              execution_id = updated.workflow_execution_id;
              handler_key = updated.handler_key;
            } in
            let (u3, w3, third, rest3) = >>=-ok (insert_outbox_event payload) _ w2 v r rest2 in
            let db3 = insert_outbox_event-ok payload w2 w3 u3 third in
            let last : w3.db ≡ v.db = ap (λ x. x.1.db) rest3 in
            let event = new_outbox_event (w2.uuids w2.drawn) payload w2.clock in
            let announce = add_event-Announces (w2.uuids w2.drawn) payload w2.clock w.db in
            subst Kept (sym (sym last ∙ db3 ∙ ap (add_event event) (db2 ∙ ap (f w1.clock) db1))) (
              set_task-NoneLost row.id (replayed_task w.clock) (add_event event w.db) q (λ t. refl)
                (λ t mine. announced (
                  subst (WaitingEvent (add_event event w.db).outbox_events) (own ∙ sym mine)
                    announce))
                (add_event-NoneLost event w.db q h))
      ]
