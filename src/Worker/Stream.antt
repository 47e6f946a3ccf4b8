-- ===== src/Worker/Stream.antt =====
-- The calls of internal/orchestrator/worker.go to the store do nothing to the stream.
use durable_work_flow_engine.Prelude.{ℕ, String, refl, arith, List}
use durable_work_flow_engine.Domain.{RawMessage, Json, wrap_error}
use durable_work_flow_engine.Db.Rows.{Database}
use durable_work_flow_engine.Db.Exec.{Exec}
use durable_work_flow_engine.Db.Stream.{
  KeepsPipe, statement-KeepsPipe, transaction-KeepsPipe, bind-KeepsPipe, if-KeepsPipe,
  pure-KeepsPipe, lift-KeepsPipe, read-KeepsPipe,
}
use durable_work_flow_engine.Store.Sql.{select_task, update_with_json, insert_task}
use durable_work_flow_engine.Store.Executions.{
  get_task_instance, get_workflow_execution, get_workflow_definition,
}
use durable_work_flow_engine.Store.Attempts.{
  start_task_attempt, start_task_attempt_body, insert_attempt, update_task_started,
  complete_task_attempt, complete_task_attempt_body, complete_task_attempt_and_enqueue_next_task,
  complete_and_enqueue_body, schedule_task_retry, schedule_task_retry_body, fail_task_attempt,
  fail_task_attempt_body,
}
use durable_work_flow_engine.Workflow.{
  parse_and_validate_workflow_definition, find_task_spec_by_name,
}
use durable_work_flow_engine.Publisher.Stream.{insert_outbox_event-KeepsPipe, update-KeepsPipe}
use durable_work_flow_engine.Worker.{wrapped, get_workflow_spec_and_task_spec}

pub select_task-KeepsPipe : (id : String) → KeepsPipe (select_task id)
unfolding select_task
select_task-KeepsPipe id = statement-KeepsPipe _ record { same = λ w. refl }

update_with_json-KeepsPipe :
    (p : RawMessage) (f : Json → ℕ → Database → Database) → KeepsPipe (update_with_json p f)
unfolding update_with_json
update_with_json-KeepsPipe p f = statement-KeepsPipe _ record { same = λ w. ground arith }

pub insert_task-KeepsPipe :
    (execution name handler : String) (p : RawMessage)
    → KeepsPipe (insert_task execution name handler p)
unfolding insert_task
insert_task-KeepsPipe execution name handler p =
    statement-KeepsPipe _ record { same = λ w. ground arith }

insert_attempt-KeepsPipe : (id : String) (n : ℕ) → KeepsPipe (insert_attempt id n)
unfolding insert_attempt
insert_attempt-KeepsPipe id n = statement-KeepsPipe _ record { same = λ w. ground arith }

update_task_started-KeepsPipe : (id : String) (n : ℕ) → KeepsPipe (update_task_started id n)
unfolding update_task_started
update_task_started-KeepsPipe id n = statement-KeepsPipe _ record { same = λ w. refl }

pub start_task_attempt-KeepsPipe : (id : String) → KeepsPipe (start_task_attempt id)
unfolding start_task_attempt start_task_attempt_body
start_task_attempt-KeepsPipe id = transaction-KeepsPipe _ (
    bind-KeepsPipe _ _ (select_task-KeepsPipe id) λ row. if-KeepsPipe _ _ _ (pure-KeepsPipe _) (
      bind-KeepsPipe _ _ (insert_attempt-KeepsPipe _ _)
        λ attempt. bind-KeepsPipe _ _ (update_task_started-KeepsPipe _ _) λ t. pure-KeepsPipe _))

pub complete_task_attempt-KeepsPipe :
    (id attempt_id : String) (output : RawMessage)
    → KeepsPipe (complete_task_attempt id attempt_id output)
unfolding complete_task_attempt complete_task_attempt_body
complete_task_attempt-KeepsPipe id attempt_id output = transaction-KeepsPipe _ (
    bind-KeepsPipe _ _ (select_task-KeepsPipe id) λ row.
      bind-KeepsPipe _ _ (update_with_json-KeepsPipe _ _) λ u.
        bind-KeepsPipe _ _ (update_with_json-KeepsPipe _ _) λ u. update_with_json-KeepsPipe _ _)

pub complete_task_attempt_and_enqueue_next_task-KeepsPipe :
    (id attempt_id name handler : String) (output : RawMessage)
    → KeepsPipe (complete_task_attempt_and_enqueue_next_task id attempt_id name handler output)
unfolding complete_task_attempt_and_enqueue_next_task complete_and_enqueue_body
complete_task_attempt_and_enqueue_next_task-KeepsPipe id attempt_id name handler output =
    transaction-KeepsPipe _ (
      bind-KeepsPipe _ _ (select_task-KeepsPipe id) λ row.
        bind-KeepsPipe _ _ (update_with_json-KeepsPipe _ _) λ u.
          bind-KeepsPipe _ _ (update_with_json-KeepsPipe _ _) λ u.
            bind-KeepsPipe _ _ (insert_task-KeepsPipe _ _ _ _)
              λ next. insert_outbox_event-KeepsPipe _)

pub schedule_task_retry-KeepsPipe :
    (id attempt_id : String) (text : List ℕ) (at : ℕ)
    → KeepsPipe (schedule_task_retry id attempt_id text at)
unfolding schedule_task_retry schedule_task_retry_body
schedule_task_retry-KeepsPipe id attempt_id text at =
    transaction-KeepsPipe _ (bind-KeepsPipe _ _ (update-KeepsPipe _) λ u. update-KeepsPipe _)

pub fail_task_attempt-KeepsPipe :
    (id attempt_id : String) (text : List ℕ) → KeepsPipe (fail_task_attempt id attempt_id text)
unfolding fail_task_attempt fail_task_attempt_body
fail_task_attempt-KeepsPipe id attempt_id text = transaction-KeepsPipe _ (
    bind-KeepsPipe _ _ (select_task-KeepsPipe id) λ row.
      bind-KeepsPipe _ _ (update-KeepsPipe _)
        λ u. bind-KeepsPipe _ _ (update-KeepsPipe _) λ u. update-KeepsPipe _)

wrapped-KeepsPipe :
    {A : Type 0} (text : String) (m : Exec A) → KeepsPipe m → KeepsPipe (wrapped text m)
wrapped-KeepsPipe text m k = record { same = λ w. k.same w }

pub get_workflow_spec_and_task_spec-KeepsPipe :
    (id : String) → KeepsPipe (get_workflow_spec_and_task_spec id)
unfolding get_workflow_spec_and_task_spec get_task_instance get_workflow_execution
    get_workflow_definition
get_workflow_spec_and_task_spec-KeepsPipe id =
    bind-KeepsPipe _ _
      (wrapped-KeepsPipe _ _
        (bind-KeepsPipe _ _ (select_task-KeepsPipe id) λ row. pure-KeepsPipe _))
      λ task.
        bind-KeepsPipe _ _
          (wrapped-KeepsPipe _ _ (bind-KeepsPipe _ _ (read-KeepsPipe _) λ row. pure-KeepsPipe _))
          λ execution.
            bind-KeepsPipe _ _
              (wrapped-KeepsPipe _ _
                (bind-KeepsPipe _ _ (read-KeepsPipe _) λ row. pure-KeepsPipe _))
              λ definition.
                bind-KeepsPipe _ _
                  (lift-KeepsPipe (
                    wrap_error "error parsing workflow definition JSON"
                      (parse_and_validate_workflow_definition definition.definition_json)))
                  λ spec.
                    bind-KeepsPipe _ _
                      (lift-KeepsPipe (
                        wrap_error "error finding task spec by name"
                          (find_task_spec_by_name spec task.task_name)))
                      λ task_spec. pure-KeepsPipe (spec, task_spec)
