-- ===== src/Store/Consistency/Statements.antt =====
-- The statements keep the consistency of the database.
use durable_work_flow_engine.Prelude.{
  ℕ, ◌+◌, String, refl, not, arith, any, bytes, leb, ◌==◌, Bool-cases, inl, inr,
}
use durable_work_flow_engine.Domain.{
  RawMessage, document, Json, Error, error_text, DispatchTaskPayload, Result, ok, err,
}
use durable_work_flow_engine.Db.{World, scan_workflow_definition, scan_task_instance}
use durable_work_flow_engine.Db.Rows.{Database}
use durable_work_flow_engine.Db.Exec.{change, lift, gen_random_uuid, now, check, pure, ◌>>=◌, ◌>>◌}
use durable_work_flow_engine.Db.Preserves.{
  Preserves, Preserves-statement, Preserves-bind, Preserves-if, Preserves-pure,
  Preserves-transaction,
}
use durable_work_flow_engine.Store.Sql.{
  insert_task, insert_outbox_event, select_task, has_task, has_task_key, has_execution,
  unique_violation, make_task_idempotency_key, normalize_json, integer_max, jsonb, truncate,
}
use durable_work_flow_engine.Store.Attempts.{
  insert_attempt, update_task_started, started_row, start_task_attempt, is_terminal,
}
use durable_work_flow_engine.Store.Executions.{
  create_workflow_definition, insert_execution, add_definition, new_definition,
}
use durable_work_flow_engine.Store.Outbox.{
  mark_outbox_dispatched, record_outbox_failure, count_fits, dispatched_event, refused_event,
}
use durable_work_flow_engine.Store.Consistency.Rows.{
  new_task-sane, new_attempt-sane, new_execution-sane,
}
use durable_work_flow_engine.Store.Consistency.Keeps.{started_row-keeps}
use durable_work_flow_engine.Store.Calls.{Reachable}
use durable_work_flow_engine.Store.Calls.Closed.{IsClosed, read-preserves, Reachable-closed}
use durable_work_flow_engine.Store.Consistency.Records.{
  begin_idempotent_task-preserves, complete_idempotent_task-preserves,
  release_idempotent_task-preserves,
}
use durable_work_flow_engine.Store.Consistency.Invariant.{IsConsistent}
use durable_work_flow_engine.Store.Consistency.Tables.{
  set_task-IsConsistent, set_event-IsConsistent, set_execution-IsConsistent,
  set_attempt-IsConsistent,
}
use durable_work_flow_engine.Store.Consistency.Additions.{
  add_task-IsConsistent, add_event-IsConsistent, add_attempt-IsConsistent,
  add_execution-IsConsistent, add_definition-IsConsistent,
}

insert_task-preserves :
    (e n k : String) (input : RawMessage) → Preserves IsConsistent (insert_task e n k input)
unfolding insert_task
insert_task-preserves e n k (document j) = Preserves-statement _ record {
  at = λ w c.
      let id = w.uuids w.drawn in
      elim (Bool-cases (has_task id w.db)) [
        | inl taken ↦ rw taken c
        | inr fresh ↦ elim (Bool-cases (has_task_key (make_task_idempotency_key e n) w.db)) [
          | inl taken ↦ rw (fresh, taken) c
          | inr fresh_key ↦ elim (Bool-cases (has_execution e w.db)) [
            | inr missing ↦ rw (fresh, fresh_key, missing) c
            | inl there ↦
                rw (fresh, fresh_key, there)
                  (add_task-IsConsistent w.db c _ fresh fresh_key there
                    (new_task-sane id e n k j w.clock))
          ]
        ]
      ];
}
insert_task-preserves e n k _ = Preserves-statement _ record { at = λ w c. c }

insert_outbox_event-preserves :
    (p : DispatchTaskPayload) → Preserves IsConsistent (insert_outbox_event p)
unfolding insert_outbox_event
insert_outbox_event-preserves p = Preserves-statement _ record {
  at = λ w c. elim (Bool-cases (any (λ e. e.id == w.uuids w.drawn) w.db.outbox_events)) [
    | inl taken ↦ rw taken c
    | inr fresh ↦ rw fresh (add_event-IsConsistent w.db c _ fresh)
  ];
}

insert_attempt-preserves :
    (task_id : String) (number : ℕ) → Preserves IsConsistent (insert_attempt task_id number)
unfolding insert_attempt
insert_attempt-preserves task_id number = Preserves-statement _ record {
  at = λ w c.
      let id = w.uuids w.drawn in
      elim (Bool-cases (leb number integer_max)) [
        | inr large ↦ rw large c
        | inl fits ↦ elim (Bool-cases (any (λ a. a.id == id) w.db.task_attempts)) [
          | inl taken ↦ rw (fits, taken) c
          | inr fresh ↦ elim (Bool-cases (has_task task_id w.db)) [
            | inr missing ↦ rw (fits, fresh, missing) c
            | inl there ↦
                rw (fits, fresh, there)
                  (add_attempt-IsConsistent w.db c _ fresh there
                    (new_attempt-sane id task_id number w.clock))
          ]
        ]
      ];
}

insert_execution-preserves :
    (definition_id : String) (input : RawMessage)
    → Preserves IsConsistent (insert_execution definition_id input)
unfolding insert_execution
insert_execution-preserves definition_id (document j) = Preserves-statement _ record {
  at = λ w c.
      let id = w.uuids w.drawn in
      elim (Bool-cases (any (λ e. e.id == id) w.db.workflow_executions)) [
        | inl taken ↦ rw taken c
        | inr fresh ↦
            elim (Bool-cases (any (λ d. d.id == definition_id) w.db.workflow_definitions)) [
              | inr missing ↦ rw (fresh, missing) c
              | inl there ↦
                  rw (fresh, there)
                    (add_execution-IsConsistent w.db c _ fresh there
                      (new_execution-sane id definition_id j w.clock))
            ]
      ];
}
insert_execution-preserves definition_id _ = Preserves-statement _ record { at = λ w c. c }

insert_definition :
    (name description : String) (r : Result Json) (w : World)
    → IsConsistent w.db
    → IsConsistent
        ((do
          j ← lift r
          id ← gen_random_uuid
          clock ← now
          check (λ w. not (any (λ d. d.id == id) w.db.workflow_definitions)) unique_violation
          check (λ w. not (any (λ d. d.name == name) w.db.workflow_definitions)) unique_violation
          change (add_definition (new_definition id name description j clock))
          pure (scan_workflow_definition (new_definition id name description j clock)))
          w).1.db
insert_definition name description (err e) w c = c
insert_definition name description (ok j) w c =
    elim (Bool-cases (any (λ d. d.id == w.uuids w.drawn) w.db.workflow_definitions)) [
      | inl taken ↦ rw taken c
      | inr fresh ↦ elim (Bool-cases (any (λ d. d.name == name) w.db.workflow_definitions)) [
        | inl taken ↦ rw (fresh, taken) c
        | inr fresh_name ↦
            rw (fresh, fresh_name) (add_definition-IsConsistent w.db c _ fresh fresh_name)
      ]
    ]

create_workflow_definition-preserves :
    (name description : String) (definition : RawMessage)
    → Preserves IsConsistent (create_workflow_definition name description definition)
unfolding create_workflow_definition
create_workflow_definition-preserves name description definition = Preserves-statement _ record {
  at = λ w c. insert_definition name description (jsonb (normalize_json definition)) w c;
}

update_task_started-preserves :
    (id : String) (n : ℕ) → Preserves IsConsistent (update_task_started id n)
unfolding update_task_started
update_task_started-preserves id n = Preserves-statement _ record {
  at = λ w c. set_task-IsConsistent w.db c id (started_row n w.clock) (started_row-keeps n w.clock);
}

mark_outbox_dispatched-preserves :
    (id : String) → Preserves IsConsistent (mark_outbox_dispatched id)
unfolding mark_outbox_dispatched
mark_outbox_dispatched-preserves id = Preserves-statement _ record {
  at = λ w c. elim (Bool-cases (count_fits id w)) [
    | inl fits ↦ rw fits (set_event-IsConsistent w.db c id (dispatched_event w.clock) (λ e. refl))
    | inr large ↦ rw large c
  ];
}

record_outbox_failure-preserves :
    (id : String) (e : Error) → Preserves IsConsistent (record_outbox_failure id e)
unfolding record_outbox_failure
record_outbox_failure-preserves id e = Preserves-statement _ record {
  at = λ w c. elim (Bool-cases (count_fits id w)) [
    | inl fits ↦ rw fits (
        set_event-IsConsistent w.db c id (refused_event (truncate (bytes (error_text e)) 1000))
          (λ d. refl))
    | inr large ↦ rw large c
  ];
}

start_task_attempt-preserves : (id : String) → Preserves IsConsistent (start_task_attempt id)
unfolding start_task_attempt select_task scan_task_instance
start_task_attempt-preserves id = Preserves-transaction _ (
    Preserves-bind _ _ (read-preserves _) λ row.
      Preserves-if (is_terminal row.status) _ _ (Preserves-pure _) (
        Preserves-bind _ _ (insert_attempt-preserves row.id (row.attempts_total + 1)) λ attempt.
          Preserves-bind _ _ (update_task_started-preserves row.id (row.attempts_total + 1))
            λ t. Preserves-pure _))

pub IsConsistent-closed : IsClosed IsConsistent
IsConsistent-closed = record {
  create_workflow_definition = create_workflow_definition-preserves;
  insert_execution = insert_execution-preserves;
  insert_task = insert_task-preserves;
  insert_outbox_event = insert_outbox_event-preserves;
  set_task = λ id f db k total c. set_task-IsConsistent db c id f k;
  set_execution = λ id f db k c. set_execution-IsConsistent db c id f k;
  set_attempt = λ id f db k c. set_attempt-IsConsistent db c id f k;
  start_task_attempt = start_task_attempt-preserves;
  mark_outbox_dispatched = mark_outbox_dispatched-preserves;
  record_outbox_failure = record_outbox_failure-preserves;
  begin_idempotent_task = begin_idempotent_task-preserves;
  complete_idempotent_task = complete_idempotent_task-preserves;
  release_idempotent_task = release_idempotent_task-preserves;
}

-- In every database that calls of the store can produce, in any order and with any failures: the
-- primary and the unique keys are distinct; the definition of an execution, the execution of a task, the
-- task of an attempt and the owner of an idempotency record that has one are rows; no task is failed,
-- none that is running or dead-lettered has a `next_run_at`, one that is dead-lettered or succeeded has a
-- `completed_at`, and one that is succeeded an output; the key of a task is made of its execution and its
-- name; an execution or an attempt has the time of its end exactly if it does not run, has an error text
-- if it failed, and an output if it succeeded.
pub Reachable-IsConsistent : {db : Database} → Reachable db → IsConsistent db
Reachable-IsConsistent r = Reachable-closed IsConsistent-closed (ground arith) r
