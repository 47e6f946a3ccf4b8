-- ===== src/Worker/Outcomes.antt =====
-- The outcomes of `HandleDispatchedTask` in internal/orchestrator/worker.go, and what it returns.
use durable_work_flow_engine.Prelude.{
  ◌≡◌, refl, Bool, true, false, Option, none, some, List, arith, Bool-cases, inl, inr, exceeds,
}
use durable_work_flow_engine.Domain.{
  RawMessage, Error, Result, ok, err, TaskInstance, TaskAttempt, TaskMessage,
  WorkflowDefinitionSpec, WorkflowTaskSpec,
}
use durable_work_flow_engine.Db.{World}
use durable_work_flow_engine.Store.Attempts.{
  Started, already_completed, started, start_task_attempt,
}
use durable_work_flow_engine.Handlers.{Handler, get_handler}
use durable_work_flow_engine.Workflow.{find_next_task_spec}
use durable_work_flow_engine.Worker.{
  Outcome, task_spec_error, db_error, persist_error, scheduled_retry, failed, missing_handler,
  advanced, succeeded, Handled, persisted, after_failure, after_success, after_handle, with_handler,
  after_start, after_specs, after_next, handle_dispatched_task, get_workflow_spec_and_task_spec,
  effective_max_attempts,
}

-- The outcomes with which an error goes back to the consumer, so that the message stays pending.
abbrev pub is_error : Outcome → Bool
is_error task_spec_error = true
is_error db_error = true
is_error persist_error = true
is_error _ = false

abbrev pub is_err : {A : Type 0} → Result A → Bool
is_err (ok a) = false
is_err (err e) = true

abbrev Reports : Handled → Type 0
Reports h = is_err h.result ≡ is_error h.outcome

persisted-Reports :
    (text : Error → Error) (o : Outcome) (r : Result (Unit {0}) × World)
    → is_error o ≡ false
    → Reports (persisted text o r)
persisted-Reports text o (ok u, w) h = ground arith
persisted-Reports text o (err e, w) h = refl

after_handle-Reports :
    (spec : WorkflowDefinitionSpec) (task_spec : WorkflowTaskSpec) (task : TaskInstance)
    (attempt : TaskAttempt) (r : Result RawMessage × World)
    → Reports (after_handle spec task_spec task attempt r)
unfolding after_failure after_success
after_handle-Reports spec task_spec task attempt (err e, w) =
    elim (Bool-cases
      (exceeds (effective_max_attempts task_spec.max_attempts) attempt.attempt_number)) [
        | inl more ↦ rw more (persisted-Reports _ scheduled_retry _ refl)
        | inr last ↦ rw last (persisted-Reports _ failed _ refl)
      ]
after_handle-Reports spec task_spec task attempt (ok output, w) =
    go (find_next_task_spec spec task.task_name)
  where
    go : (next : Result (Option WorkflowTaskSpec)) → Reports (after_next task attempt output w next)
    go (err e) = refl
    go (ok (some next)) = persisted-Reports _ advanced _ refl
    go (ok none) = persisted-Reports _ succeeded _ refl

with_handler-Reports :
    (spec : WorkflowDefinitionSpec) (task_spec : WorkflowTaskSpec) (task : TaskInstance)
    (attempt : TaskAttempt) (h : Option Handler) (w : World)
    → Reports (with_handler spec task_spec task attempt h w)
with_handler-Reports spec task_spec task attempt none w = persisted-Reports _ missing_handler _ refl
with_handler-Reports spec task_spec task attempt (some h) w =
    after_handle-Reports spec task_spec task attempt (h.handle task w)

after_start-Reports :
    (registry : List Handler) (spec : WorkflowDefinitionSpec) (task_spec : WorkflowTaskSpec)
    (r : Result Started × World)
    → Reports (after_start registry spec task_spec r)
after_start-Reports registry spec task_spec (err e, w) = refl
after_start-Reports registry spec task_spec (ok (already_completed task), w) = refl
after_start-Reports registry spec task_spec (ok (started task attempt), w) =
    with_handler-Reports spec task_spec task attempt (get_handler registry task.handler_key) w

after_specs-Reports :
    (registry : List Handler) (message : TaskMessage)
    (r : Result (WorkflowDefinitionSpec × WorkflowTaskSpec) × World)
    → Reports (after_specs registry message r)
after_specs-Reports registry message (err e, w) = refl
after_specs-Reports registry message (ok (spec, task_spec), w) =
    after_start-Reports registry spec task_spec (start_task_attempt message.task_id w)

-- `HandleDispatchedTask` returns an error exactly when its outcome is one of the three that leave the
-- message pending: the specifications were not found, the attempt was not started, or the result was
-- not stored. A handler that fails, or that is missing, is not such an error once this is stored.
pub handle_dispatched_task-reports :
    (registry : List Handler) (message : TaskMessage) (w : World)
    → is_err (handle_dispatched_task registry message w).result
      ≡ is_error (handle_dispatched_task registry message w).outcome
unfolding handle_dispatched_task
handle_dispatched_task-reports registry message w =
    after_specs-Reports registry message (get_workflow_spec_and_task_spec message.task_id w)
