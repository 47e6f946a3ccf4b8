-- ===== src/Worker/Progress.antt =====
-- What `HandleDispatchedTask` of internal/orchestrator/worker.go does with a handler's output.
use durable_work_flow_engine.Prelude.{◌≡◌, refl, ap, sym, subst, ◌⊎◌, inl, inr, Option, none, some}
use durable_work_flow_engine.Domain.{
  Error, wrap, Result, ok, err, RawMessage, TaskInstance, TaskAttempt, WorkflowTaskSpec,
  WorkflowDefinitionSpec, ◌<>◌,
}
use durable_work_flow_engine.Db.{World}
use durable_work_flow_engine.Db.Rows.{Database}
use durable_work_flow_engine.Store.Attempts.{
  complete_task_attempt, complete_task_attempt_and_enqueue_next_task,
}
use durable_work_flow_engine.Store.Attempts.Success.{
  IsCompleted, complete_task_attempt-ok, complete_task_attempt_either,
}
use durable_work_flow_engine.Store.Attempts.Handover.{
  IsAdvanced, complete_task_attempt_and_enqueue_next_task-ok,
  complete_task_attempt_and_enqueue_next_task_either,
}
use durable_work_flow_engine.Workflow.{find_next_task_spec}
use durable_work_flow_engine.Worker.{
  Outcome, task_spec_error, persist_error, advanced, succeeded, Handled, persisted, after_next,
  after_success,
}

-- The call of the store failed, and its error is returned in the text of `f`. The database is what the
-- call left: it has nothing or all of what the call is to write.
abbrev pub IsFailedCall :
    World
    → Result (Unit {0}) × World
    → (Error → Error)
    → (Database → Type 0)
    → Result (Unit {0})
    → Database
    → Type 0
IsFailedCall w call f Written r db =
    (e : Error) × (call.0 ≡ err e) × (r ≡ err (f e)) × (db ≡ call.1.db) × ((db ≡ w.db) ⊎ Written db)

-- What a call leaves that fails.
pub IsFailedCall-of :
    (w : World) (call : Result (Unit {0}) × World) (f : Error → Error) (Written : Database → Type 0)
    (e : Error) (v : World)
    → call ≡ (err e, v)
    → (call.1.db ≡ w.db) ⊎ Written call.1.db
    → IsFailedCall w call f Written (err (f e)) v.db
IsFailedCall-of w call f Written e v ran cases = (
  e,
  ap (λ x. x.0) ran,
  refl,
  ap (λ x. x.1.db) (sym ran),
  subst (λ db. (db ≡ w.db) ⊎ Written db) (ap (λ x. x.1.db) ran) cases,
)

-- What is stored when a handler's output ends with an outcome and a result: the next task where the
-- workflow has one, and else the completed execution; or the call that is to store this fails.
abbrev pub IsStored :
    WorkflowDefinitionSpec
    → TaskInstance
    → TaskAttempt
    → RawMessage
    → World
    → Outcome
    → Result (Unit {0})
    → Database
    → Type 0
IsStored spec task attempt output w advanced r db =
    (next : WorkflowTaskSpec) × (find_next_task_spec spec task.task_name ≡ ok (some next))
    × (r ≡ ok tt)
    × IsAdvanced task.id attempt.id next.name next.handler_key output w db
IsStored spec task attempt output w succeeded r db =
    (find_next_task_spec spec task.task_name ≡ ok none)
    × (r ≡ ok tt)
    × IsCompleted task.id attempt.id output w db
IsStored spec task attempt output w task_spec_error r db =
    (e : Error) × (find_next_task_spec spec task.task_name ≡ err e)
    × (r ≡ err (wrap ("error resolving next task for " <> task.task_name) e))
    × (db ≡ w.db)
IsStored spec task attempt output w persist_error r db =
    ((next : WorkflowTaskSpec) × (find_next_task_spec spec task.task_name ≡ ok (some next))
      × IsFailedCall w
          (complete_task_attempt_and_enqueue_next_task task.id attempt.id next.name next.handler_key
            output w)
          (wrap "error completing task attempt and enqueuing next task")
          (IsAdvanced task.id attempt.id next.name next.handler_key output w) r db)
    ⊎ ((find_next_task_spec spec task.task_name ≡ ok none)
        × IsFailedCall w (complete_task_attempt task.id attempt.id output w) (λ e. e)
            (IsCompleted task.id attempt.id output w) r db)
IsStored spec task attempt output w _ r db = ⊥

module _ (spec : WorkflowDefinitionSpec) (task : TaskInstance) (attempt : TaskAttempt)
    (output : RawMessage) (w : World) where
  abbrev StoredBy : Handled → Type 0
  StoredBy h = IsStored spec task attempt output w h.outcome h.result h.world.db

  advanced-IsStored :
      (next : WorkflowTaskSpec) (r : Result (Unit {0}) × World)
      → find_next_task_spec spec task.task_name ≡ ok (some next)
      → complete_task_attempt_and_enqueue_next_task task.id attempt.id next.name next.handler_key
          output w
        ≡ r
      → StoredBy
          (persisted (wrap "error completing task attempt and enqueuing next task") advanced r)
  advanced-IsStored next (ok u, v) found ran = (
    next,
    found,
    refl,
    complete_task_attempt_and_enqueue_next_task-ok task.id attempt.id next.name next.handler_key
        output w v u ran,
  )
  advanced-IsStored next (err f, v) found ran = inl (
    next,
    found,
    IsFailedCall-of w _ (wrap "error completing task attempt and enqueuing next task")
        (IsAdvanced task.id attempt.id next.name next.handler_key output w) f v ran
        (complete_task_attempt_and_enqueue_next_task_either task.id attempt.id next.name
          next.handler_key output w),
  )

  succeeded-IsStored :
      (r : Result (Unit {0}) × World)
      → find_next_task_spec spec task.task_name ≡ ok none
      → complete_task_attempt task.id attempt.id output w ≡ r
      → StoredBy (persisted (λ e. e) succeeded r)
  succeeded-IsStored (ok u, v) found ran =
      (found, refl, complete_task_attempt-ok task.id attempt.id output w v u ran)
  succeeded-IsStored (err f, v) found ran = inr (
    found,
    IsFailedCall-of w _ (λ e. e) (IsCompleted task.id attempt.id output w) f v ran
        (complete_task_attempt_either task.id attempt.id output w),
  )

  next-IsStored :
      (next : Result (Option WorkflowTaskSpec))
      → find_next_task_spec spec task.task_name ≡ next
      → StoredBy (after_next task attempt output w next)
  next-IsStored (err e) found = (e, found, refl, refl)
  next-IsStored (ok (some next)) found = advanced-IsStored next _ found refl
  next-IsStored (ok none) found = succeeded-IsStored _ found refl

-- After a handler's output there are four cases. The outcome is advanced: the workflow has a next
-- task, the attempt and the task are succeeded, the next task and its event are added, and nothing
-- else is written. The outcome is succeeded: there is no next task, the attempt, the task and the
-- execution are succeeded, and nothing else is written. The outcome is task_spec_error: the next task
-- is not found, nothing is written, and the error says so. The outcome is persist_error: the call of
-- CompleteTaskAttemptAndEnqueueNextTask where there is a next task, or else of CompleteTaskAttempt, with
-- this task, this attempt and this output fails, its error is returned, in the first case with a text
-- in front, and the database has either nothing or all of what the call is to write.
pub after_success-IsStored :
    (spec : WorkflowDefinitionSpec) (task : TaskInstance) (attempt : TaskAttempt)
    (output : RawMessage) (w : World)
    → IsStored spec task attempt output w
        (after_success spec task attempt output w).outcome
        (after_success spec task attempt output w).result
        (after_success spec task attempt output w).world.db
unfolding after_success
after_success-IsStored spec task attempt output w =
    next-IsStored spec task attempt output w (find_next_task_spec spec task.task_name) refl
