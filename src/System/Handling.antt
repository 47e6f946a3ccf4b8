-- ===== src/System/Handling.antt =====
-- `HandleDispatchedTask` of internal/orchestrator/worker.go forgets no task while the entry that it
-- handles is not acknowledged, and settles its task where it returns no error.
use durable_work_flow_engine.Prelude.{
  ℕ, String, arith, ◌≡◌, refl, ap, sym, subst, ◌∙◌, inl, inr, Bool-cases, Option-cases, same_some,
  Option, none, some, List, [], ◌∷◌, All, bytes, exceeds, ◌==◌,
}
use durable_work_flow_engine.Domain.{
  RawMessage, Error, error_text, Result, ok, err, TaskInstance, TaskAttempt, TaskMessage,
  WorkflowDefinitionSpec, WorkflowTaskSpec,
}
use durable_work_flow_engine.Db.{World, Pipe, pipe, scan_task_instance}
use durable_work_flow_engine.Db.Exec.{Exec}
use durable_work_flow_engine.Db.Preserves.{Preserves}
use durable_work_flow_engine.Db.Stream.{KeepsPipe}
use durable_work_flow_engine.Store.Attempts.{
  Started, already_completed, started, start_task_attempt, complete_task_attempt,
  complete_task_attempt_and_enqueue_next_task, schedule_task_retry, fail_task_attempt,
}
use durable_work_flow_engine.Store.Attempts.Start.{start_task_attempt-ok, find_id}
use durable_work_flow_engine.Store.Calls.{after_call, start, complete, advance, retry, fail}
use durable_work_flow_engine.Store.Calls.Closed.{after_call-closed}
use durable_work_flow_engine.Store.Consistency.{IsConsistent, IsConsistent-closed}
use durable_work_flow_engine.Handlers.{Handler, get_handler}
use durable_work_flow_engine.Worker.{
  Outcome, Handled, persisted, after_failure, after_next, after_success, after_handle, with_handler,
  after_start, after_specs, handle_dispatched_task, get_workflow_spec_and_task_spec,
  effective_max_attempts, next_run_at, missing_handler_error,
}
use durable_work_flow_engine.Worker.Redelivery.{specs-preserves}
use durable_work_flow_engine.Worker.Stream.{
  start_task_attempt-KeepsPipe, complete_task_attempt-KeepsPipe,
  complete_task_attempt_and_enqueue_next_task-KeepsPipe, schedule_task_retry-KeepsPipe,
  fail_task_attempt-KeepsPipe, get_workflow_spec_and_task_spec-KeepsPipe,
}
use durable_work_flow_engine.System.Coverage.{OpenEntry, NoneLost, tables, tables-NoneLost}
use durable_work_flow_engine.System.Settling.{
  Settled, start_task_attempt-Settled, complete_task_attempt-Settled,
  complete_task_attempt_and_enqueue_next_task-Settled, schedule_task_retry-Settled,
  fail_task_attempt-Settled,
}
use durable_work_flow_engine.System.Guarding.{
  start_task_attempt-NoneLost, complete_task_attempt-NoneLost,
  complete_task_attempt_and_enqueue_next_task-NoneLost, schedule_task_retry-NoneLost,
  fail_task_attempt-NoneLost,
}

-- What an operation outside of the engine's own tables does: it keeps the consistency and leaves the
-- tasks, the outbox and the stream alone.
pub record Stays (w v : World) : Type 0 where
  pub consistent : IsConsistent w.db → IsConsistent v.db
  pub piped : pipe v ≡ pipe w
  pub same_tables : tables v ≡ tables w

abbrev pub IsLocal : Handler → Type 0
IsLocal h = (task : TaskInstance) (w : World) → Stays w (h.handle task w).1

get_handler-IsLocal :
    (registry : List Handler) (key : String) (h : Handler)
    → get_handler registry key ≡ some h
    → All IsLocal registry
    → IsLocal h
unfolding get_handler
get_handler-IsLocal [] key h e all = cc
get_handler-IsLocal (g ∷ registry) key h e all = elim (Option-cases (get_handler registry key)) [
  | inr (later, found) ↦
      let same = rw found at e in get_handler-IsLocal registry key h (found ∙ same) all.1
  | inl missing ↦ elim (Bool-cases (g.key == key)) [
    | inl own ↦
        let first : some g ≡ some h = rw own at (rw missing at e) in
        subst IsLocal (same_some first) all.0
    | inr other ↦ absurd (ground (arith, rw other at (rw missing at e)))
  ]
]

-- What a call to the store does while the entry for the task `id` of the pipe `q` is not acknowledged.
record IsCareful (q : Pipe) (id : String) (m : Exec (Unit {0})) : Type 0 where
  consistent : Preserves IsConsistent m
  piped : KeepsPipe m
  none_lost : Preserves (λ db. NoneLost db q) m
  settled : (w w' : World) (u : Unit {0}) → m w ≡ (ok u, w') → IsConsistent w'.db → Settled w'.db id

-- All is well with the pipe `q`.
abbrev pub IsGood : Pipe → World → Type 0
IsGood q w = IsConsistent w.db × (pipe w ≡ q) × NoneLost w.db q

-- All is well after the handling, and no error means that the task `id` is settled.
abbrev pub IsHandled : Pipe → String → Handled → Type 0
IsHandled q id h = IsGood q h.world × (h.result ≡ ok tt → Settled h.world.db id)

module _ (q : Pipe) (id : String) (entry : OpenEntry q id) where
  retry-IsCareful :
      (a : String) (text : List ℕ) (at : ℕ) → IsCareful q id (schedule_task_retry id a text at)
  unfolding after_call
  retry-IsCareful a text at = record {
    consistent = record { at = after_call-closed IsConsistent-closed (retry id a text at) };
    piped = schedule_task_retry-KeepsPipe id a text at;
    none_lost = schedule_task_retry-NoneLost q id entry a text at;
    settled = λ w w' u ran c. schedule_task_retry-Settled id a text at w w' u ran;
  }

  fail-IsCareful : (a : String) (text : List ℕ) → IsCareful q id (fail_task_attempt id a text)
  unfolding after_call
  fail-IsCareful a text = record {
    consistent = record { at = after_call-closed IsConsistent-closed (fail id a text) };
    piped = fail_task_attempt-KeepsPipe id a text;
    none_lost = fail_task_attempt-NoneLost q id entry a text;
    settled = λ w w' u ran c. fail_task_attempt-Settled id a text w w' u ran;
  }

  complete-IsCareful :
      (a : String) (output : RawMessage) → IsCareful q id (complete_task_attempt id a output)
  unfolding after_call
  complete-IsCareful a output = record {
    consistent = record { at = after_call-closed IsConsistent-closed (complete id a output) };
    piped = complete_task_attempt-KeepsPipe id a output;
    none_lost = complete_task_attempt-NoneLost q id entry a output;
    settled = λ w w' u ran c. complete_task_attempt-Settled id a output w w' u ran;
  }

  advance-IsCareful :
      (a name key : String) (output : RawMessage)
      → IsCareful q id (complete_task_attempt_and_enqueue_next_task id a name key output)
  unfolding after_call
  advance-IsCareful a name key output = record {
    consistent = record {
      at = after_call-closed IsConsistent-closed (advance id a name key output);
    };
    piped = complete_task_attempt_and_enqueue_next_task-KeepsPipe id a name key output;
    none_lost = complete_task_attempt_and_enqueue_next_task-NoneLost q id entry a name key output;
    settled = complete_task_attempt_and_enqueue_next_task-Settled id a name key output;
  }

  IsGood-after :
      {A : Type 0} (m : Exec A) (w : World)
      → Preserves IsConsistent m
      → KeepsPipe m
      → Preserves (λ db. NoneLost db q) m
      → IsGood q w
      → IsGood q (m w).1
  IsGood-after m w c p n (consistent, same, none_lost) =
      (c.at w consistent, p.same w ∙ same, n.at w none_lost)

  persisted-IsHandled :
      (text : Error → Error) (o : Outcome) (m : Exec (Unit {0})) (w : World)
      → IsCareful q id m
      → IsGood q w
      → IsHandled q id (persisted text o (m w))
  persisted-IsHandled text o m w k g =
      go (m w) refl (IsGood-after m w k.consistent k.piped k.none_lost g)
    where
      go :
          (r : Result (Unit {0}) × World)
          → m w ≡ r
          → IsGood q r.1
          → IsHandled q id (persisted text o r)
      go (ok u, v) ran good = (good, (λ e. k.settled w v u ran good.0))
      go (err e, v) ran good = (good, (λ e. cc))

  module _ (task : TaskInstance) (attempt : TaskAttempt) (own : task.id ≡ id) where
    careful : (m : String → Exec (Unit {0})) → IsCareful q id (m id) → IsCareful q id (m task.id)
    careful m k = subst (λ x. IsCareful q id (m x)) (sym own) k

    after_failure-IsHandled :
        (spec : WorkflowTaskSpec) (e : Error) (w : World)
        → IsGood q w
        → IsHandled q id (after_failure spec task attempt e w)
    unfolding after_failure
    after_failure-IsHandled spec e w g =
        elim (Bool-cases
          (exceeds (effective_max_attempts spec.max_attempts) attempt.attempt_number)) [
            | inl more ↦ rw more (
                persisted-IsHandled _ _ _ w
                  (careful
                    (λ x.
                      schedule_task_retry x attempt.id (bytes (error_text e))
                        (next_run_at w.clock spec.backoff_seconds))
                    (retry-IsCareful attempt.id _ _))
                  g)
            | inr last ↦ rw last (
                persisted-IsHandled _ _ _ w
                  (careful (λ x. fail_task_attempt x attempt.id (bytes (error_text e)))
                    (fail-IsCareful attempt.id _))
                  g)
          ]

    after_next-IsHandled :
        (output : RawMessage) (w : World) (r : Result (Option WorkflowTaskSpec))
        → IsGood q w
        → IsHandled q id (after_next task attempt output w r)
    after_next-IsHandled output w (err e) g = (g, (λ e. cc))
    after_next-IsHandled output w (ok (some next)) g =
        persisted-IsHandled _ _ _ w
          (careful
            (λ x.
              complete_task_attempt_and_enqueue_next_task x attempt.id next.name next.handler_key
                output)
            (advance-IsCareful attempt.id _ _ _))
          g
    after_next-IsHandled output w (ok none) g =
        persisted-IsHandled _ _ _ w
          (careful (λ x. complete_task_attempt x attempt.id output)
            (complete-IsCareful attempt.id _))
          g

    after_handle-IsHandled :
        (spec : WorkflowDefinitionSpec) (task_spec : WorkflowTaskSpec)
        (r : Result RawMessage × World)
        → IsGood q r.1
        → IsHandled q id (after_handle spec task_spec task attempt r)
    unfolding after_success
    after_handle-IsHandled spec task_spec (err e, w) g = after_failure-IsHandled task_spec e w g
    after_handle-IsHandled spec task_spec (ok output, w) g = after_next-IsHandled output w _ g

    with_handler-IsHandled :
        (spec : WorkflowDefinitionSpec) (task_spec : WorkflowTaskSpec) (registry : List Handler)
        (w : World) (h : Option Handler)
        → All IsLocal registry
        → get_handler registry task.handler_key ≡ h
        → IsGood q w
        → IsHandled q id (with_handler spec task_spec task attempt h w)
    with_handler-IsHandled spec task_spec registry w none all e g =
        persisted-IsHandled _ _ _ w
          (careful
            (λ x.
              fail_task_attempt x attempt.id
                (bytes (error_text (missing_handler_error task.handler_key))))
            (fail-IsCareful attempt.id _))
          g
    with_handler-IsHandled spec task_spec registry w (some h) all e g =
        let k = get_handler-IsLocal registry task.handler_key h e all in
        let v = (h.handle task w).1 in
        after_handle-IsHandled spec task_spec (h.handle task w) (
          (k task w).consistent g.0,
          (k task w).piped ∙ g.1,
          tables-NoneLost w v q (k task w).same_tables g.2,
        )

  after_start-IsHandled :
      (spec : WorkflowDefinitionSpec) (task_spec : WorkflowTaskSpec) (registry : List Handler)
      (w : World) (r : Result Started × World)
      → All IsLocal registry
      → start_task_attempt id w ≡ r
      → IsGood q r.1
      → IsHandled q id (after_start registry spec task_spec r)
  unfolding scan_task_instance
  after_start-IsHandled spec task_spec registry w (err e, v) all ran g = (g, (λ e. cc))
  after_start-IsHandled spec task_spec registry w (ok (already_completed t), v) all ran g =
      (g, (λ e. start_task_attempt-Settled id w v t ran g.0))
  after_start-IsHandled spec task_spec registry w (ok (started t a), v) all ran g =
      let s = start_task_attempt-ok id w v (started t a) ran in
      with_handler-IsHandled t a (ap (λ x. x.id) s.task ∙ find_id id _ s.row s.found) spec task_spec
        registry v _ all refl g

  after_specs-IsHandled :
      (registry : List Handler) (message : TaskMessage)
      (r : Result (WorkflowDefinitionSpec × WorkflowTaskSpec) × World)
      → All IsLocal registry
      → message.task_id ≡ id
      → IsGood q r.1
      → IsHandled q id (after_specs registry message r)
  unfolding after_call
  after_specs-IsHandled registry message (err e, w) all own g = (g, (λ e. cc))
  after_specs-IsHandled registry message (ok (spec, task_spec), w) all own g =
      subst (λ x. IsHandled q id (after_start registry spec task_spec (start_task_attempt x w)))
        (sym own)
        (after_start-IsHandled spec task_spec registry w (start_task_attempt id w) all refl (
          IsGood-after (start_task_attempt id) w
            (record { at = after_call-closed IsConsistent-closed (start id) })
            (start_task_attempt-KeepsPipe id) (start_task_attempt-NoneLost q id entry) g))

  -- Where an entry for the message's task is not acknowledged, and the handlers do their work outside
  -- of the engine's tables: whatever the faults, `HandleDispatchedTask` leaves consistent tables, the
  -- stream as it was and no task lost; and where it returns no error, the task has ended or is pending
  -- with the time of its next attempt.
  pub handle_dispatched_task-IsHandled :
      (registry : List Handler) (message : TaskMessage) (w : World)
      → All IsLocal registry
      → message.task_id ≡ id
      → IsGood q w
      → IsHandled q id (handle_dispatched_task registry message w)
  unfolding handle_dispatched_task
  handle_dispatched_task-IsHandled registry message w all own g =
      let specs = get_workflow_spec_and_task_spec message.task_id in
      after_specs-IsHandled registry message (specs w) all own (
        IsGood-after specs w (specs-preserves message.task_id)
          (get_workflow_spec_and_task_spec-KeepsPipe message.task_id)
          (specs-preserves message.task_id) g)
