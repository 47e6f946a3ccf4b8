-- ===== src/Store/Calls/Closed.antt =====
-- An invariant that the statements keep is kept by every operation.
use durable_work_flow_engine.Prelude.{ℕ, String, refl, subst, sym, List, [], ◌∷◌, not}
use durable_work_flow_engine.Domain.{RawMessage, document, Json, Error, DispatchTaskPayload, Result}
use durable_work_flow_engine.Db.{World}
use durable_work_flow_engine.Db.Rows.{Database, TaskRow, ExecutionRow, AttemptRow}
use durable_work_flow_engine.Db.Exec.{statement}
use durable_work_flow_engine.Db.Preserves.{
  Preserves, Preserves-statement, Preserves-bind, Preserves-if, Preserves-pure, Preserves-raise,
  Preserves-transaction,
}
use durable_work_flow_engine.Store.Sql.{
  truncate, set_task, set_execution, set_attempt, normalize_json, insert_task, insert_outbox_event,
  update, update_with_json, select_task,
}
use durable_work_flow_engine.Store.Attempts.{
  start_task_attempt, complete_task_attempt, complete_task_attempt_and_enqueue_next_task,
  schedule_task_retry, fail_task_attempt,
}
use durable_work_flow_engine.Store.Executions.{
  create_workflow_definition, create_execution_and_task, insert_execution,
  replay_dead_lettered_task, is_dead_lettered, update_task_replayed,
}
use durable_work_flow_engine.Store.Outbox.{
  enqueue_due_task_retries, enqueue_each, payload_of, mark_outbox_dispatched, record_outbox_failure,
}
use durable_work_flow_engine.Store.Idempotency.{
  begin_idempotent_task, complete_idempotent_task, release_idempotent_task,
}
use durable_work_flow_engine.Store.Calls.{
  Call, after_call, empty_database, Reachable, create_definition, create_execution, replay, start,
  complete, advance, retry, fail, enqueue_due, mark_dispatched, record_failure, begin_key,
  complete_key, release_key, here, next,
}
use durable_work_flow_engine.Store.Consistency.Keeps.{
  KeepsTask, KeepsTotal, KeepsExecution, KeepsAttempt, replayed_task-keeps, succeeded_task-keeps,
  retried_task-keeps, dead_lettered_task-keeps, unscheduled_task-keeps, succeeded_execution-keeps,
  failed_execution-keeps, replayed_execution-keeps, succeeded_attempt-keeps, failed_attempt-keeps,
}

-- `P` is kept by the statements, and by `StartTaskAttempt` as a whole.
pub record IsClosed (P : Database → Type 0) : Type 0 where
  pub create_workflow_definition :
      (name description : String) (definition : RawMessage)
      → Preserves P (create_workflow_definition name description definition)
  pub insert_execution : (d : String) (input : RawMessage) → Preserves P (insert_execution d input)
  pub insert_task : (e n h : String) (input : RawMessage) → Preserves P (insert_task e n h input)
  pub insert_outbox_event : (p : DispatchTaskPayload) → Preserves P (insert_outbox_event p)
  pub set_task :
      (id : String) (f : TaskRow → TaskRow) (db : Database)
      → KeepsTask f
      → KeepsTotal f
      → P db
      → P (set_task id f db)
  pub set_execution :
      (id : String) (f : ExecutionRow → ExecutionRow) (db : Database)
      → KeepsExecution f
      → P db
      → P (set_execution id f db)
  pub set_attempt :
      (id : String) (f : AttemptRow → AttemptRow) (db : Database)
      → KeepsAttempt f
      → P db
      → P (set_attempt id f db)
  pub start_task_attempt : (id : String) → Preserves P (start_task_attempt id)
  pub mark_outbox_dispatched : (id : String) → Preserves P (mark_outbox_dispatched id)
  pub record_outbox_failure : (id : String) (e : Error) → Preserves P (record_outbox_failure id e)
  pub begin_idempotent_task :
      (h key owner : String) → Preserves P (begin_idempotent_task h key owner)
  pub complete_idempotent_task :
      (h key owner : String) (response : RawMessage)
      → Preserves P (complete_idempotent_task h key owner response)
  pub release_idempotent_task :
      (h key owner : String) → Preserves P (release_idempotent_task h key owner)

-- A query that only reads.
pub read-preserves :
    {A : Type 0} {P : Database → Type 0} (f : World → Result A)
    → Preserves P (statement λ w. (f w, w))
read-preserves f = Preserves-statement _ record { at = λ w c. c }

module _ {P : Database → Type 0} where
  pub update-preserves :
      (f : ℕ → Database → Database)
      → ((clock : ℕ) (db : Database) → P db → P (f clock db))
      → Preserves P (update f)
  unfolding update
  update-preserves f h = Preserves-statement _ record { at = λ w c. h w.clock w.db c }

  pub update_with_json-preserves :
      (payload : RawMessage) (f : Json → ℕ → Database → Database)
      → ((j : Json) (clock : ℕ) (db : Database) → P db → P (f j clock db))
      → Preserves P (update_with_json payload f)
  unfolding update_with_json
  update_with_json-preserves (document j) f h =
      Preserves-statement _ record { at = λ w c. h j w.clock w.db c }
  update_with_json-preserves _ f h = Preserves-statement _ record { at = λ w c. c }

module _ {P : Database → Type 0} (k : IsClosed P) where
  update_task_replayed-preserves : (id : String) → Preserves P (update_task_replayed id)
  unfolding update_task_replayed
  update_task_replayed-preserves id =
      Preserves-statement _
        record { at = λ w c. k.set_task id _ w.db (replayed_task-keeps w.clock) (λ t. refl) c }

  complete_task_attempt-preserves :
      (task_id attempt_id : String) (output : RawMessage)
      → Preserves P (complete_task_attempt task_id attempt_id output)
  unfolding complete_task_attempt select_task
  complete_task_attempt-preserves task_id attempt_id output =
      let p = normalize_json output in
      Preserves-transaction _ (
        Preserves-bind _ _ (read-preserves _) λ row.
          Preserves-bind _ _
            (update_with_json-preserves p _
              (λ j clock db c. k.set_attempt attempt_id _ db (succeeded_attempt-keeps j clock) c))
            λ _.
              Preserves-bind _ _
                (update_with_json-preserves p _ λ j clock db c.
                  k.set_task task_id _ db (succeeded_task-keeps j clock) (λ t. refl) c)
                λ _. update_with_json-preserves p _ λ j clock db c.
                  k.set_execution row.workflow_execution_id _ db (succeeded_execution-keeps j clock)
                    c)

  complete_task_attempt_and_enqueue_next_task-preserves :
      (task_id attempt_id name key : String) (output : RawMessage)
      → Preserves P (complete_task_attempt_and_enqueue_next_task task_id attempt_id name key output)
  unfolding complete_task_attempt_and_enqueue_next_task select_task
  complete_task_attempt_and_enqueue_next_task-preserves task_id attempt_id name key output =
      let p = normalize_json output in
      Preserves-transaction _ (
        Preserves-bind _ _ (read-preserves _) λ row.
          Preserves-bind _ _
            (update_with_json-preserves p _
              (λ j clock db c. k.set_attempt attempt_id _ db (succeeded_attempt-keeps j clock) c))
            λ _.
              Preserves-bind _ _
                (update_with_json-preserves p _ λ j clock db c.
                  k.set_task task_id _ db (succeeded_task-keeps j clock) (λ t. refl) c)
                λ _.
                  Preserves-bind _ _ (k.insert_task row.workflow_execution_id name key p)
                    λ next. k.insert_outbox_event _)

  schedule_task_retry-preserves :
      (task_id attempt_id : String) (text : List ℕ) (at : ℕ)
      → Preserves P (schedule_task_retry task_id attempt_id text at)
  unfolding schedule_task_retry
  schedule_task_retry-preserves task_id attempt_id text at = Preserves-transaction _ (
      Preserves-bind _ _
        (update-preserves _ (λ clock db c.
          k.set_attempt attempt_id _ db (failed_attempt-keeps (truncate text 1000) clock) c))
        λ _. update-preserves _ λ clock db c.
          k.set_task task_id _ db (retried_task-keeps (truncate text 1000) at clock) (λ t. refl) c)

  fail_task_attempt-preserves :
      (task_id attempt_id : String) (text : List ℕ)
      → Preserves P (fail_task_attempt task_id attempt_id text)
  unfolding fail_task_attempt select_task
  fail_task_attempt-preserves task_id attempt_id text =
      let s = truncate text 1000 in
      Preserves-transaction _ (
        Preserves-bind _ _ (read-preserves _) λ row.
          Preserves-bind _ _
            (update-preserves _
              (λ clock db c. k.set_attempt attempt_id _ db (failed_attempt-keeps s clock) c))
            λ _.
              Preserves-bind _ _
                (update-preserves _ λ clock db c.
                  k.set_task task_id _ db (dead_lettered_task-keeps s clock) (λ t. refl) c)
                λ _. update-preserves _ λ clock db c.
                  k.set_execution row.workflow_execution_id _ db (failed_execution-keeps s clock) c)

  create_execution_and_task-preserves :
      (definition_id : String) (input : RawMessage) (name key : String)
      → Preserves P (create_execution_and_task definition_id input name key)
  unfolding create_execution_and_task
  create_execution_and_task-preserves definition_id input name key =
      let p = normalize_json input in
      Preserves-transaction _ (
        Preserves-bind _ _ (k.insert_execution definition_id p) λ execution.
          Preserves-bind _ _ (k.insert_task execution.id name key p)
            λ task. Preserves-bind _ _ (k.insert_outbox_event _) λ _. Preserves-pure _)

  replay_dead_lettered_task-preserves :
      (task_id : String) → Preserves P (replay_dead_lettered_task task_id)
  unfolding replay_dead_lettered_task select_task
  replay_dead_lettered_task-preserves task_id = Preserves-transaction _ (
      Preserves-bind _ _ (read-preserves _) λ row.
        Preserves-if (not (is_dead_lettered row.status)) _ _ (Preserves-raise _) (
          Preserves-bind _ _ (update_task_replayed-preserves row.id) λ updated.
            Preserves-bind _ _
              (update-preserves _ λ clock db c.
                k.set_execution row.workflow_execution_id _ db (replayed_execution-keeps clock) c)
              λ _. Preserves-bind _ _ (k.insert_outbox_event _) λ _. Preserves-pure _))

  enqueue_each-preserves : (items : List TaskRow) → Preserves P (enqueue_each items)
  unfolding enqueue_each
  enqueue_each-preserves [] = Preserves-pure tt
  enqueue_each-preserves (item ∷ items) =
      Preserves-bind _ _ (k.insert_outbox_event (payload_of item)) λ _.
        Preserves-bind _ _
          (update-preserves _
            λ clock db c. k.set_task item.id _ db (unscheduled_task-keeps clock) (λ t. refl) c)
          λ _. enqueue_each-preserves items

  pub enqueue_due_task_retries-preserves :
      (limit : ℕ) → Preserves P (enqueue_due_task_retries limit)
  unfolding enqueue_due_task_retries
  enqueue_due_task_retries-preserves limit = Preserves-transaction _ (
      Preserves-bind _ _ (read-preserves _)
        λ due. Preserves-bind _ _ (enqueue_each-preserves due) λ _. Preserves-pure _)

  -- Every call keeps `P`.
  pub after_call-closed : (c : Call) (w : World) → P w.db → P (after_call c w)
  unfolding after_call
  after_call-closed (create_definition name description definition) w h =
      (k.create_workflow_definition name description definition).at w h
  after_call-closed (create_execution d input n key) w h =
      (create_execution_and_task-preserves d input n key).at w h
  after_call-closed (replay id) w h = (replay_dead_lettered_task-preserves id).at w h
  after_call-closed (start id) w h = (k.start_task_attempt id).at w h
  after_call-closed (complete id a output) w h =
      (complete_task_attempt-preserves id a output).at w h
  after_call-closed (advance id a n key output) w h =
      (complete_task_attempt_and_enqueue_next_task-preserves id a n key output).at w h
  after_call-closed (retry id a text at) w h = (schedule_task_retry-preserves id a text at).at w h
  after_call-closed (fail id a text) w h = (fail_task_attempt-preserves id a text).at w h
  after_call-closed (enqueue_due limit) w h = (enqueue_due_task_retries-preserves limit).at w h
  after_call-closed (mark_dispatched id) w h = (k.mark_outbox_dispatched id).at w h
  after_call-closed (record_failure id e) w h = (k.record_outbox_failure id e).at w h
  after_call-closed (begin_key a b o) w h = (k.begin_idempotent_task a b o).at w h
  after_call-closed (complete_key a b o r) w h = (k.complete_idempotent_task a b o r).at w h
  after_call-closed (release_key a b o) w h = (k.release_idempotent_task a b o).at w h

  -- What holds of the empty database and is kept by the statements holds of every reachable one.
  pub Reachable-closed : {db : Database} → P empty_database → Reachable db → P db
  Reachable-closed init (here e) = subst P (sym e) init
  Reachable-closed init (next r c w same e) =
      subst P (sym e) (after_call-closed c w (subst P (sym same) (Reachable-closed init r)))
