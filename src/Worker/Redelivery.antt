-- ===== src/Worker/Redelivery.antt =====
-- What a message for a task that is done does, in internal/orchestrator/worker.go.
use durable_work_flow_engine.Prelude.{
  String, ◌≡◌, refl, ap, sym, subst, ◌∙◌, true, some, List, arith, find, ◌==◌, inl, inr, same_some,
}
use durable_work_flow_engine.Domain.{
  Result, ok, err, TaskMessage, WorkflowDefinitionSpec, WorkflowTaskSpec, wrap_error,
}
use durable_work_flow_engine.Db.{World}
use durable_work_flow_engine.Db.Rows.{TaskRow, Database}
use durable_work_flow_engine.Db.Exec.{Exec, lift}
use durable_work_flow_engine.Db.Preserves.{
  Preserves, Preserves-bind, Preserves-lift, Preserves-pure,
}
use durable_work_flow_engine.Store.Attempts.{
  Started, already_completed, started, start_task_attempt, is_terminal,
}
use durable_work_flow_engine.Store.Attempts.Start.{
  start_task_attempt_cases, start_task_attempt-ok, StartedSpec,
}
use durable_work_flow_engine.Store.Calls.Closed.{read-preserves}
use durable_work_flow_engine.Store.Sql.{select_task}
use durable_work_flow_engine.Store.Executions.{
  get_task_instance, get_workflow_execution, get_workflow_definition,
}
use durable_work_flow_engine.Workflow.{
  parse_and_validate_workflow_definition, find_task_spec_by_name,
}
use durable_work_flow_engine.Handlers.{Handler}
use durable_work_flow_engine.Worker.{
  wrapped, get_workflow_spec_and_task_spec, handle_dispatched_task, after_specs, after_start,
}

wrapped-preserves :
    {A : Type 0} {P : Database → Type 0} (text : String) (m : Exec A)
    → Preserves P m
    → Preserves P (wrapped text m)
wrapped-preserves text m k = record { at = λ w h. k.at w h }

module _ {P : Database → Type 0} (id : String) where
  task-preserves : Preserves P (get_task_instance id)
  unfolding get_task_instance select_task
  task-preserves = Preserves-bind _ _ (read-preserves _) λ row. Preserves-pure _

  execution-preserves : Preserves P (get_workflow_execution id)
  unfolding get_workflow_execution
  execution-preserves = Preserves-bind _ _ (read-preserves _) λ row. Preserves-pure _

  definition-preserves : Preserves P (get_workflow_definition id)
  unfolding get_workflow_definition
  definition-preserves = Preserves-bind _ _ (read-preserves _) λ row. Preserves-pure _

pub specs-preserves :
    {P : Database → Type 0} (id : String) → Preserves P (get_workflow_spec_and_task_spec id)
unfolding get_workflow_spec_and_task_spec
specs-preserves id =
    Preserves-bind (wrapped "error fetching task from store" (get_task_instance id)) _
      (wrapped-preserves _ _ (task-preserves id))
      λ task.
        Preserves-bind
          (wrapped "error fetching execution from store"
            (get_workflow_execution task.workflow_execution_id))
          _ (wrapped-preserves _ _ (execution-preserves task.workflow_execution_id))
          λ execution.
            Preserves-bind
              (wrapped "error fetching workflow definition from store"
                (get_workflow_definition execution.workflow_definition_id))
              _ (wrapped-preserves _ _ (definition-preserves execution.workflow_definition_id))
              λ definition.
                Preserves-bind
                  (lift (
                    wrap_error "error parsing workflow definition JSON"
                      (parse_and_validate_workflow_definition definition.definition_json)))
                  _ (Preserves-lift _)
                  λ spec.
                    Preserves-bind
                      (lift (
                        wrap_error "error finding task spec by name"
                          (find_task_spec_by_name spec task.task_name)))
                      _ (Preserves-lift _) λ task_spec. Preserves-pure (spec, task_spec)

-- A task that has ended is found in the database.
abbrev IsDone : String → Database → Type 0
IsDone id db =
    (row : TaskRow) × (find (λ t. t.id == id) db.task_instances ≡ some row)
    × (is_terminal row.status ≡ true)

not_started :
    (id : String) (w v : World) (r : Started)
    → IsDone id w.db
    → StartedSpec id w v.db r
    → v.db ≡ w.db
not_started id w v (already_completed t) d s = s.unchanged
not_started id w v (started t a) d s =
    let (row, found, done) = d in
    let same : row ≡ s.row = same_some (sym found ∙ s.found) in
    absurd (ground (arith, same, done, s.not_terminal))

start-unchanged :
    (registry : List Handler) (spec : WorkflowDefinitionSpec) (task_spec : WorkflowTaskSpec)
    (id : String) (w : World) (r : Result Started × World)
    → start_task_attempt id w ≡ r
    → IsDone id w.db
    → (after_start registry spec task_spec r).world.db ≡ w.db
start-unchanged registry spec task_spec id w (err e, v) ran d =
    elim (start_task_attempt_cases id w) [
      | inl kept ↦ ap (λ x. x.1.db) (sym ran) ∙ kept
      | inr (r, s) ↦ ap (λ x. x.1.db) (sym ran) ∙ not_started id w (start_task_attempt id w).1 r d s
    ]
start-unchanged registry spec task_spec id w (ok (already_completed t), v) ran d =
    (start_task_attempt-ok id w v (already_completed t) ran).unchanged
start-unchanged registry spec task_spec id w (ok (started t a), v) ran d =
    let s = start_task_attempt-ok id w v (started t a) ran in
    let (row, found, done) = d in
    let same : row ≡ s.row = same_some (sym found ∙ s.found) in
    absurd (ground (arith, same, done, s.not_terminal))

specs-unchanged :
    (registry : List Handler) (message : TaskMessage) (old : Database)
    (r : Result (WorkflowDefinitionSpec × WorkflowTaskSpec) × World)
    → r.1.db ≡ old
    → IsDone message.task_id old
    → (after_specs registry message r).world.db ≡ old
specs-unchanged registry message old (err e, v) same d = same
specs-unchanged registry message old (ok (spec, task_spec), v) same d =
    start-unchanged registry spec task_spec message.task_id v (start_task_attempt message.task_id v)
      refl (subst (IsDone message.task_id) (sym same) d)
    ∙ same

-- A message for a task that is succeeded or dead-lettered changes nothing in the database, whatever
-- the handlers are and whatever faults occur: delivering a message again does no harm to a task that
-- is done.
pub handle_dispatched_task-done :
    (registry : List Handler) (message : TaskMessage) (w : World) (row : TaskRow)
    → find (λ t. t.id == message.task_id) w.db.task_instances ≡ some row
    → is_terminal row.status ≡ true
    → (handle_dispatched_task registry message w).world.db ≡ w.db
unfolding handle_dispatched_task
handle_dispatched_task-done registry message w row found done =
    specs-unchanged registry message w.db (get_workflow_spec_and_task_spec message.task_id w)
      ((specs-preserves {P = λ d. d ≡ w.db} message.task_id).at w refl) (row, found, done)
