-- ===== src/Store/Numbering.antt =====
-- The attempts of each task are numbered 1, 2, ... in the order in which they are recorded.
pub mod Numbers
mod Untouched
use mathlib.Core.Path.{subst₂}
use native.Mathlib.Numerals.{add-one}
use durable_work_flow_engine.Prelude.{
  ℕ, zero, suc, ◌+◌, String, ◌≡◌, refl, ap, sym, subst, ◌∙◌, ◌⊎◌, inl, inr, Bool, true, false, not,
  Option, none, some, List, [], ◌∷◌, ◌++◌, arith, any, find, find-All, All, All-map, All-append,
  All-update_where, All-update_where_if, update_where, ◌==◌, eq_iff, Bool-cases, if◌then◌else◌,
}
use durable_work_flow_engine.Domain.{
  RawMessage, empty, malformed, document, TaskInstance, TaskAttempt,
}
use durable_work_flow_engine.Db.{World}
use durable_work_flow_engine.Db.Rows.{Database, TaskRow, AttemptRow}
use durable_work_flow_engine.Db.Exec.{Exec}
use durable_work_flow_engine.Db.Preserves.{Preserves, Preserves-statement}
use durable_work_flow_engine.Store.Sql.{
  set_task, set_execution, set_attempt, has_task, has_task_key, has_execution, insert_task,
  new_task, add_task, make_task_idempotency_key,
}
use durable_work_flow_engine.Store.Attempts.{
  start_task_attempt, new_attempt, add_attempt, started_row, already_completed, started,
}
use durable_work_flow_engine.Store.Attempts.Start.{IsStarted, IsSkipped, start_task_attempt_cases}
use durable_work_flow_engine.Store.Calls.{Reachable, here}
use durable_work_flow_engine.Store.Calls.Closed.{IsClosed, Reachable-closed}
use durable_work_flow_engine.Store.Consistency.{
  IsConsistent, IsConsistent-closed, Reachable-IsConsistent,
}
use durable_work_flow_engine.Store.Consistency.Rows.{new_task-sane}
use durable_work_flow_engine.Store.Consistency.Additions.{add_task-IsConsistent}
use durable_work_flow_engine.Store.Numbering.Untouched.{
  Frame, insert_execution-Frame, create_workflow_definition-Frame, insert_outbox_event-Frame,
  mark_outbox_dispatched-Frame, record_outbox_failure-Frame, begin_idempotent_task-Frame,
  complete_idempotent_task-Frame, release_idempotent_task-Frame,
}
use durable_work_flow_engine.Store.Consistency.Keeps.{KeepsTask, KeepsTotal, KeepsAttempt}
use durable_work_flow_engine.Store.Numbering.Numbers.{
  numbers_of, upto, IsNumbered, numbers_of-append, numbers_of-update_where, numbers_of-none,
  upto-suc,
}

module _ (db : Database) (h : IsNumbered db) where
  set_task-IsNumbered :
      (id : String) (f : TaskRow → TaskRow)
      → KeepsTask f
      → KeepsTotal f
      → IsNumbered (set_task id f db)
  set_task-IsNumbered id f k total = record {
    consistent = IsConsistent-closed.set_task id f db k total h.consistent;
    attempts =
        All-update_where _ f db.task_instances (λ t e. e)
          (λ t e. ap (λ z. numbers_of z db.task_attempts) (k.id t) ∙ e ∙ ap upto (sym (total t)))
          h.attempts;
  }

  set_attempt-IsNumbered :
      (id : String) (f : AttemptRow → AttemptRow)
      → KeepsAttempt f
      → IsNumbered (set_attempt id f db)
  set_attempt-IsNumbered id f k = record {
    consistent = IsConsistent-closed.set_attempt id f db k h.consistent;
    attempts =
        All-map db.task_instances
          (λ t e. numbers_of-update_where t.id (λ a. a.id == id) f db.task_attempts k ∙ e)
          h.attempts;
  }

  add_task-IsNumbered :
      (row : TaskRow)
      → IsConsistent (add_task row db)
      → has_task row.id db ≡ false
      → row.attempts_total ≡ 0
      → IsNumbered (add_task row db)
  add_task-IsNumbered row c fresh none_yet = record {
    consistent = c;
    attempts = All-append _ db.task_instances (row ∷ []) h.attempts (
      numbers_of-none row.id db db.task_attempts fresh h.consistent.attempt_tasks
          ∙ ap upto (sym none_yet),
      tt,
    );
  }

  -- The numbers of the found task come before the new one.
  found-numbers :
      (id : String) (row : TaskRow)
      → find (λ t. t.id == id) db.task_instances ≡ some row
      → numbers_of id db.task_attempts ≡ upto row.attempts_total
  found-numbers id row found =
      let (same, e) =
        find-All (λ t. numbers_of t.id db.task_attempts ≡ upto t.attempts_total) (λ t. t.id == id)
          db.task_instances found h.attempts in
      ap (λ z. numbers_of z db.task_attempts) (sym ((eq_iff row.id id).0 same)) ∙ e

  -- `StartTaskAttempt` adds the next number and counts it.
  started-attempts :
      (id attempt_id : String) (row : TaskRow) (clock : ℕ)
      → find (λ t. t.id == id) db.task_instances ≡ some row
      → All
          (λ t.
            numbers_of t.id
              (db.task_attempts ++ new_attempt attempt_id id (row.attempts_total + 1) clock ∷ [])
            ≡ upto t.attempts_total)
          (update_where
            (λ t. t.id == id)
            (started_row (row.attempts_total + 1) clock)
            db.task_instances)
  started-attempts id attempt_id row clock found =
      let n = row.attempts_total in
      let a = new_attempt attempt_id id (n + 1) clock in
      All-update_where_if (λ t. t.id == id) (started_row (n + 1) clock) db.task_instances
        (λ t other e. ground (
          arith,
          numbers_of-append t.id db.task_attempts a,
          eq_iff id t.id,
          eq_iff t.id id,
          other,
          e,
        ))
        (λ t same e.
          let e' = found-numbers id row found in
          numbers_of-append t.id db.task_attempts a
          ∙ rw ((eq_iff t.id id).0 same, (eq_iff id id).1 refl, e') (sym (upto-suc n)))
        h.attempts

started-IsNumbered :
    (id : String) (w : World) (db : Database) (t : TaskInstance) (a : TaskAttempt)
    → IsConsistent db
    → IsNumbered w.db
    → IsStarted id w db t a
    → IsNumbered db
started-IsNumbered id w db t a c h s = record {
  consistent = c;
  attempts =
      subst
        (λ d. All (λ t. numbers_of t.id d.task_attempts ≡ upto t.attempts_total) d.task_instances)
        (sym s.written) (started-attempts w.db h id s.attempt_id s.row w.clock s.found);
}

start_task_attempt-preserves : (id : String) → Preserves IsNumbered (start_task_attempt id)
start_task_attempt-preserves id = record {
  at = λ w h.
      let c = (IsConsistent-closed.start_task_attempt id).at w h.consistent in
      elim (start_task_attempt_cases id w) [
        | inl kept ↦ subst IsNumbered (sym kept) h
        | inr (already_completed t, s) ↦ subst IsNumbered (sym s.unchanged) h
        | inr (started t a, s) ↦ started-IsNumbered id w (start_task_attempt id w).1.db t a c h s
      ];
}

insert_task-preserves :
    (e n k : String) (input : RawMessage) → Preserves IsNumbered (insert_task e n k input)
unfolding insert_task
insert_task-preserves e n k (document j) = Preserves-statement _ record {
  at = λ w c.
      let id = w.uuids w.drawn in
      elim (Bool-cases (has_task id w.db)) [
        | inl taken ↦ rw taken c
        | inr fresh ↦ elim (Bool-cases (has_task_key (make_task_idempotency_key e n) w.db)) [
          | inl taken ↦ rw (fresh, taken) c
          | inr fresh_key ↦ elim (Bool-cases (has_execution e w.db)) [
            | inr missing ↦ rw (fresh, fresh_key, missing) c
            | inl there ↦
                let sane = new_task-sane id e n k j w.clock in
                let added = add_task-IsConsistent w.db c.consistent _ fresh fresh_key there sane in
                rw (fresh, fresh_key, there) (add_task-IsNumbered w.db c _ added fresh refl)
          ]
        ]
      ];
}
insert_task-preserves e n k _ = Preserves-statement _ record { at = λ w c. c }

-- A statement that leaves the tasks and the attempts alone.
Frame-preserves :
    {A : Type 0} (m : Exec A)
    → Preserves IsConsistent m
    → ((ts : List TaskRow) (rows : List AttemptRow) → Preserves (Frame ts rows) m)
    → Preserves IsNumbered m
Frame-preserves m k frame = record {
  at = λ w h.
      let same =
        (frame w.db.task_instances w.db.task_attempts).at w
          (record { same_tasks = refl; same_attempts = refl }) in
      record {
        consistent = k.at w h.consistent;
        attempts =
            subst₂ (λ ts rows. All (λ t. numbers_of t.id rows ≡ upto t.attempts_total) ts)
              (sym same.same_tasks) (sym same.same_attempts) h.attempts;
      };
}

IsNumbered-closed : IsClosed IsNumbered
IsNumbered-closed =
    let c = IsConsistent-closed in
    record {
      create_workflow_definition = λ n s d.
          Frame-preserves _ (c.create_workflow_definition n s d)
            λ ts rows. create_workflow_definition-Frame ts rows n s d;
      insert_execution = λ d j.
          Frame-preserves _ (c.insert_execution d j) λ ts rows. insert_execution-Frame ts rows d j;
      insert_task = insert_task-preserves;
      insert_outbox_event = λ p.
          Frame-preserves _ (c.insert_outbox_event p)
            λ ts rows. insert_outbox_event-Frame ts rows p;
      set_task = λ id f db k total h. set_task-IsNumbered db h id f k total;
      set_execution = λ id f db k h. record {
        consistent = c.set_execution id f db k h.consistent;
        attempts = h.attempts;
      };
      set_attempt = λ id f db k h. set_attempt-IsNumbered db h id f k;
      start_task_attempt = start_task_attempt-preserves;
      mark_outbox_dispatched = λ id.
          Frame-preserves _ (c.mark_outbox_dispatched id)
            λ ts rows. mark_outbox_dispatched-Frame ts rows id;
      record_outbox_failure = λ id e.
          Frame-preserves _ (c.record_outbox_failure id e)
            λ ts rows. record_outbox_failure-Frame ts rows id e;
      begin_idempotent_task = λ a b o.
          Frame-preserves _ (c.begin_idempotent_task a b o)
            λ ts rows. begin_idempotent_task-Frame ts rows a b o;
      complete_idempotent_task = λ a b o r.
          Frame-preserves _ (c.complete_idempotent_task a b o r)
            λ ts rows. complete_idempotent_task-Frame ts rows a b o r;
      release_idempotent_task = λ a b o.
          Frame-preserves _ (c.release_idempotent_task a b o)
            λ ts rows. release_idempotent_task-Frame ts rows a b o;
    }

-- In every database that calls of the store can produce, in any order and with any failures, the
-- attempts of each task carry the numbers 1, 2, ... up to the task's `attempts_total`, in the order
-- in which they were recorded.
pub Reachable-numbered :
    {db : Database}
    → Reachable db
    → All (λ t. numbers_of t.id db.task_attempts ≡ upto t.attempts_total) db.task_instances
Reachable-numbered r =
    (Reachable-closed IsNumbered-closed
      (record { consistent = Reachable-IsConsistent (here refl); attempts = tt }) r).attempts
