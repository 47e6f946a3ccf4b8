-- ===== src/System/Guarding.antt =====
-- While an entry for a task is not acknowledged, what internal/db/store.go does for this task forgets
-- no task.
use durable_work_flow_engine.Prelude.{
  ℕ, String, ◌≡◌, refl, sym, subst, ◌∙◌, inl, inr, List, All-append,
}
use durable_work_flow_engine.Domain.{RawMessage, DispatchTaskPayload}
use durable_work_flow_engine.Db.{World, Pipe}
use durable_work_flow_engine.Db.Rows.{Database, TaskRow}
use durable_work_flow_engine.Db.Exec.{transaction_cases}
use durable_work_flow_engine.Db.Preserves.{Preserves, Preserves-bind, Preserves-transaction}
use durable_work_flow_engine.Store.Sql.{
  set_task, add_task, add_event, new_outbox_event, truncate, select_task, normalize_json,
}
use durable_work_flow_engine.Store.Attempts.{
  Started, already_completed, started, started_row, succeeded_task, retried_task,
  dead_lettered_task, start_task_attempt, complete_task_attempt, complete_task_attempt_body,
  complete_task_attempt_and_enqueue_next_task, complete_and_enqueue_body, schedule_task_retry,
  schedule_task_retry_body, fail_task_attempt, fail_task_attempt_body,
}
use durable_work_flow_engine.Store.Attempts.Start.{StartedSpec, start_task_attempt_cases}
use durable_work_flow_engine.Store.Attempts.Success.{succeeded_in}
use durable_work_flow_engine.Store.Attempts.Handover.{complete_and_enqueue_body-ok}
use durable_work_flow_engine.Store.Calls.Closed.{
  read-preserves, update-preserves, update_with_json-preserves,
}
use durable_work_flow_engine.System.Coverage.{
  OpenEntry, WaitingEvent, announced, queued, NoneLost, set_task-NoneLost, add_event-NoneLost,
  add_event-Announces,
}

-- A task that is added together with its event.
pub announced_task-NoneLost :
    (event_id : String) (p : DispatchTaskPayload) (clock : ℕ) (row : TaskRow) (db : Database)
    (q : Pipe)
    → p.task_id ≡ row.id
    → NoneLost db q
    → NoneLost (add_event (new_outbox_event event_id p clock) (add_task row db)) q
announced_task-NoneLost event_id p clock row db q own h =
    All-append _ db.task_instances _ (add_event-NoneLost (new_outbox_event event_id p clock) db q h)
      (
        announced (
            subst (WaitingEvent (add_event (new_outbox_event event_id p clock) db).outbox_events)
              own (add_event-Announces event_id p clock db)),
        tt,
      )

module _ (q : Pipe) (id : String) (entry : OpenEntry q id) where
  abbrev Kept : Database → Type 0
  Kept db = NoneLost db q

  set-NoneLost :
      (f : TaskRow → TaskRow) (db : Database)
      → ((t : TaskRow) → (f t).id ≡ t.id)
      → Kept db
      → Kept (set_task id f db)
  set-NoneLost f db same h =
      set_task-NoneLost id f db q same (λ t own. queued (subst (OpenEntry q) (sym own) entry)) h

  started-NoneLost :
      (w : World) (db : Database) (r : Started) → StartedSpec id w db r → Kept w.db → Kept db
  started-NoneLost w db (already_completed t) s h = subst Kept (sym s.unchanged) h
  started-NoneLost w db (started t a) s h =
      subst Kept (sym s.written) (set-NoneLost (started_row _ w.clock) w.db (λ t. refl) h)

  pub start_task_attempt-NoneLost : Preserves Kept (start_task_attempt id)
  start_task_attempt-NoneLost = record {
    at = λ w h. elim (start_task_attempt_cases id w) [
      | inl kept ↦ subst Kept (sym kept) h
      | inr (r, s) ↦ started-NoneLost w _ r s h
    ];
  }

  pub schedule_task_retry-NoneLost :
      (attempt_id : String) (text : List ℕ) (at : ℕ)
      → Preserves Kept (schedule_task_retry id attempt_id text at)
  unfolding schedule_task_retry schedule_task_retry_body
  schedule_task_retry-NoneLost attempt_id text at = Preserves-transaction _ (
      Preserves-bind _ _ (update-preserves _ λ clock db h. h) λ u.
        update-preserves _
          λ clock db h. set-NoneLost (retried_task (truncate text 1000) at clock) db (λ t. refl) h)

  pub fail_task_attempt-NoneLost :
      (attempt_id : String) (text : List ℕ) → Preserves Kept (fail_task_attempt id attempt_id text)
  unfolding fail_task_attempt fail_task_attempt_body select_task
  fail_task_attempt-NoneLost attempt_id text = Preserves-transaction _ (
      Preserves-bind _ _ (read-preserves _) λ row.
        Preserves-bind _ _ (update-preserves _ λ clock db h. h) λ u.
          Preserves-bind _ _
            (update-preserves _ λ clock db h.
              set-NoneLost (dead_lettered_task (truncate text 1000) clock) db (λ t. refl) h)
            λ u. update-preserves _ λ clock db h. h)

  pub complete_task_attempt-NoneLost :
      (attempt_id : String) (output : RawMessage)
      → Preserves Kept (complete_task_attempt id attempt_id output)
  unfolding complete_task_attempt complete_task_attempt_body select_task
  complete_task_attempt-NoneLost attempt_id output =
      let p = normalize_json output in
      Preserves-transaction _ (
        Preserves-bind _ _ (read-preserves _) λ row.
          Preserves-bind _ _ (update_with_json-preserves p _ λ j clock db h. h) λ u.
            Preserves-bind _ _
              (update_with_json-preserves p _
                λ j clock db h. set-NoneLost (succeeded_task j clock) db (λ t. refl) h)
              λ u. update_with_json-preserves p _ λ j clock db h. h)

  pub complete_task_attempt_and_enqueue_next_task-NoneLost :
      (attempt_id name handler : String) (output : RawMessage)
      → Preserves Kept
          (complete_task_attempt_and_enqueue_next_task id attempt_id name handler output)
  unfolding complete_task_attempt_and_enqueue_next_task
  complete_task_attempt_and_enqueue_next_task-NoneLost attempt_id name handler output = record {
    at = λ w h.
        elim (transaction_cases (complete_and_enqueue_body id attempt_id name handler output) w) [
          | inl kept ↦ subst Kept (sym kept) h
          | inr (u, v, ran, written) ↦
              let s = complete_and_enqueue_body-ok id attempt_id name handler output w v u ran in
              subst Kept (sym (written ∙ s.written)) (
                announced_task-NoneLost s.event_id _ w.clock _
                  (succeeded_in id attempt_id s.stored w.clock w.db) q refl
                  (set-NoneLost (succeeded_task s.stored w.clock) w.db (λ t. refl) h))
        ];
  }
