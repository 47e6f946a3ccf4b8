-- ===== src/Worker/Retry.antt =====
-- What `HandleDispatchedTask` of internal/orchestrator/worker.go does with a handler's error.
use durable_work_flow_engine.Prelude.{◌≡◌, ◌⊎◌, true, false, bytes, exceeds}
use durable_work_flow_engine.Domain.{
  Error, error_text, wrap, Result, ok, TaskInstance, TaskAttempt, WorkflowTaskSpec,
}
use durable_work_flow_engine.Db.{World}
use durable_work_flow_engine.Db.Rows.{Database}
use durable_work_flow_engine.Store.Attempts.{schedule_task_retry, fail_task_attempt}
use durable_work_flow_engine.Store.Attempts.Failure.{scheduled, DeadLettered}
use durable_work_flow_engine.Worker.Progress.{IsFailedCall}
use durable_work_flow_engine.Worker.{
  Outcome, scheduled_retry, failed, persist_error, Handled, effective_max_attempts, next_run_at,
}

-- What is stored when a handler's error ends with an outcome and a result: the next attempt at the
-- time of the backoff, as long as the number of this attempt is below the maximum of the task, and
-- else the dead-lettered task; or the call that is to store this fails.
abbrev pub IsRecorded :
    WorkflowTaskSpec
    → TaskInstance
    → TaskAttempt
    → Error
    → World
    → Outcome
    → Result (Unit {0})
    → Database
    → Type 0
IsRecorded spec task attempt e w scheduled_retry r db =
    (exceeds (effective_max_attempts spec.max_attempts) attempt.attempt_number ≡ true)
    × (r ≡ ok tt)
    × (db
        ≡ scheduled task.id attempt.id (bytes (error_text e))
            (next_run_at w.clock spec.backoff_seconds) w.clock w.db)
IsRecorded spec task attempt e w failed r db =
    (exceeds (effective_max_attempts spec.max_attempts) attempt.attempt_number ≡ false)
    × (r ≡ ok tt)
    × DeadLettered task.id attempt.id (bytes (error_text e)) w db
IsRecorded spec task attempt e w persist_error r db =
    ((exceeds (effective_max_attempts spec.max_attempts) attempt.attempt_number ≡ true)
      × IsFailedCall w
          (schedule_task_retry task.id attempt.id (bytes (error_text e))
            (next_run_at w.clock spec.backoff_seconds) w)
          (wrap "schedule task retry")
          (λ x.
            x
            ≡ scheduled task.id attempt.id (bytes (error_text e))
                (next_run_at w.clock spec.backoff_seconds) w.clock w.db)
          r db)
    ⊎ ((exceeds (effective_max_attempts spec.max_attempts) attempt.attempt_number ≡ false)
        × IsFailedCall w (fail_task_attempt task.id attempt.id (bytes (error_text e)) w)
            (wrap "persist terminal task failure")
            (DeadLettered task.id attempt.id (bytes (error_text e)) w) r db)
IsRecorded spec task attempt e w _ r db = ⊥

module _ (spec : WorkflowTaskSpec) (task : TaskInstance) (attempt : TaskAttempt) (e : Error)
    (w : World) where
  abbrev RecordedBy : Handled → Type 0
  RecordedBy h = IsRecorded spec task attempt e w h.outcome h.result h.world.db
