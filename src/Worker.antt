-- ===== src/Worker.antt =====
-- internal/orchestrator/worker.go. Each function below is one stretch of `HandleDispatchedTask`: it
-- takes the result of the last call and goes on to the next one.
pub mod Redelivery
pub mod Outcomes
pub mod Backoff
pub mod Retry
pub mod Progress
pub mod Stream
use durable_work_flow_engine.Prelude.{
  ℕ, zero, suc, ◌+◌, ◌-◌, ◌^◌, ◌*◌, String, Bool, true, false, Option, none, some, List, [], ◌∷◌,
  if◌then◌else◌, ◌==◌, ltb, ℤ, pos, negsuc, exceeds, mul64, bytes,
}
use durable_work_flow_engine.Domain.{
  RawMessage, Error, Result, ok, err, errors_new, wrap, wrap_error, error_text, ◌<>◌, TaskInstance,
  TaskAttempt, TaskMessage, WorkflowDefinitionSpec, WorkflowTaskSpec,
}
use durable_work_flow_engine.Db.{World}
use durable_work_flow_engine.Db.Exec.{Exec, pure, raise, lift, ◌>>=◌}
use durable_work_flow_engine.Store.Executions.{
  get_task_instance, get_workflow_execution, get_workflow_definition,
}
use durable_work_flow_engine.Store.Attempts.{
  Started, already_completed, started, start_task_attempt, complete_task_attempt,
  complete_task_attempt_and_enqueue_next_task, schedule_task_retry, fail_task_attempt,
}
use durable_work_flow_engine.Handlers.{Handler, get_handler}
use durable_work_flow_engine.Workflow.{
  parse_and_validate_workflow_definition, find_task_spec_by_name, find_next_task_spec,
}

abbrev pub wrapped : {A : Type 0} → String → Exec A → Exec A
wrapped text m w = let (r, w') = m w in (wrap_error text r, w')

unfoldable pub get_workflow_spec_and_task_spec :
    String → Exec (WorkflowDefinitionSpec × WorkflowTaskSpec)
get_workflow_spec_and_task_spec task_id = do
  task ← wrapped "error fetching task from store" (get_task_instance task_id)
  execution ←
      wrapped "error fetching execution from store"
        (get_workflow_execution task.workflow_execution_id)
  definition ←
      wrapped "error fetching workflow definition from store"
        (get_workflow_definition execution.workflow_definition_id)
  spec ← lift (
      wrap_error "error parsing workflow definition JSON"
        (parse_and_validate_workflow_definition definition.definition_json))
  task_spec ←
      lift
        (wrap_error "error finding task spec by name" (find_task_spec_by_name spec task.task_name))
  pure (spec, task_spec)

-- The label `outcome` of the telemetry.
pub data Outcome : Type 0 where
  task_spec_error db_error duplicate missing_handler persist_error scheduled_retry failed : Outcome
  advanced succeeded : Outcome

-- The outcome and the returned error, with the world left behind.
pub record Handled : Type 0 where
  pub outcome : Outcome
  pub result : Result (Unit {0})
  pub world : World

abbrev pub handled : Outcome → Result (Unit {0}) → World → Handled
handled o r w = record { outcome = o; result = r; world = w }

-- A store call at the end of a path: `persist_error` where it fails.
abbrev pub persisted : (Error → Error) → Outcome → Result (Unit {0}) × World → Handled
persisted text o (ok u, w) = handled o (ok tt) w
persisted text o (err e, w) = handled persist_error (err (text e)) w

-- `MaxAttempts` of 0 means one attempt.
abbrev pub effective_max_attempts : ℤ → ℤ
effective_max_attempts (pos zero) = pos 1
effective_max_attempts z = z

-- `t.Add(d)` for a `time.Duration` in nanoseconds.
abbrev pub add_duration : ℕ → ℤ → ℕ
add_duration t (pos n) = t + n
add_duration t (negsuc n) = t - suc n

-- `time.Now().UTC().Add(time.Duration(taskSpec.BackoffSeconds) * time.Second)`
unfoldable pub next_run_at : ℕ → ℤ → ℕ
next_run_at clock backoff_seconds = add_duration clock (mul64 backoff_seconds 1000000000)

-- From `handler.Handle` returning an error.
unfoldable pub after_failure :
    WorkflowTaskSpec → TaskInstance → TaskAttempt → Error → World → Handled
after_failure spec task attempt e w =
    if exceeds (effective_max_attempts spec.max_attempts) attempt.attempt_number
    then persisted (wrap "schedule task retry") scheduled_retry (
        schedule_task_retry task.id attempt.id (bytes (error_text e))
          (next_run_at w.clock spec.backoff_seconds) w)
    else persisted (wrap "persist terminal task failure") failed
        (fail_task_attempt task.id attempt.id (bytes (error_text e)) w)

-- From the result of `findNextTaskSpec`.
abbrev pub after_next :
    TaskInstance → TaskAttempt → RawMessage → World → Result (Option WorkflowTaskSpec) → Handled
after_next task attempt output w (err e) =
    handled task_spec_error (err (wrap ("error resolving next task for " <> task.task_name) e)) w
after_next task attempt output w (ok (some next)) =
    persisted (wrap "error completing task attempt and enqueuing next task") advanced (
      complete_task_attempt_and_enqueue_next_task task.id attempt.id next.name next.handler_key
        output w)
after_next task attempt output w (ok none) =
    persisted (λ e. e) succeeded (complete_task_attempt task.id attempt.id output w)

-- From `handler.Handle` returning an output.
unfoldable pub after_success :
    WorkflowDefinitionSpec → TaskInstance → TaskAttempt → RawMessage → World → Handled
after_success spec task attempt output w =
    after_next task attempt output w (find_next_task_spec spec task.task_name)

abbrev pub after_handle :
    WorkflowDefinitionSpec
    → WorkflowTaskSpec
    → TaskInstance
    → TaskAttempt
    → Result RawMessage × World
    → Handled
after_handle spec task_spec task attempt (err e, w) = after_failure task_spec task attempt e w
after_handle spec task_spec task attempt (ok output, w) = after_success spec task attempt output w

-- For a key without characters that `%q` escapes.
abbrev pub missing_handler_error : String → Error
missing_handler_error key = errors_new ("no handler registered for \"" <> key <> "\"")

abbrev pub with_handler :
    WorkflowDefinitionSpec
    → WorkflowTaskSpec
    → TaskInstance
    → TaskAttempt
    → Option Handler
    → World
    → Handled
with_handler spec task_spec task attempt none w =
    persisted (wrap "persist missing-handler failure") missing_handler (
      fail_task_attempt task.id attempt.id
        (bytes (error_text (missing_handler_error task.handler_key))) w)
with_handler spec task_spec task attempt (some h) w =
    after_handle spec task_spec task attempt (h.handle task w)

abbrev pub after_start :
    List Handler → WorkflowDefinitionSpec → WorkflowTaskSpec → Result Started × World → Handled
after_start registry spec task_spec (err e, w) = handled db_error (err e) w
after_start registry spec task_spec (ok (already_completed task), w) = handled duplicate (ok tt) w
after_start registry spec task_spec (ok (started task attempt), w) =
    with_handler spec task_spec task attempt (get_handler registry task.handler_key) w

abbrev pub after_specs :
    List Handler
    → TaskMessage
    → Result (WorkflowDefinitionSpec × WorkflowTaskSpec) × World
    → Handled
after_specs registry message (err e, w) =
    handled task_spec_error
      (err (wrap ("error getting task spec for task ID " <> message.task_id) e)) w
after_specs registry message (ok (spec, task_spec), w) =
    after_start registry spec task_spec (start_task_attempt message.task_id w)

unfoldable pub handle_dispatched_task : List Handler → TaskMessage → World → Handled
handle_dispatched_task registry message w =
    after_specs registry message (get_workflow_spec_and_task_spec message.task_id w)

-- The method as `Consume` calls it: only the error is looked at.
unfoldable pub handle_message : List Handler → TaskMessage → Exec (Unit {0})
handle_message registry message w =
    let h = handle_dispatched_task registry message w in (h.result, h.world)
