-- ===== src/System/Serving.antt =====
-- The methods of internal/orchestrator/service.go keep the tables consistent, leave the stream alone
-- and forget no task.
use durable_work_flow_engine.Prelude.{String, refl, sym, subst, Bool, arith, if◌then◌else◌}
use durable_work_flow_engine.Domain.{RawMessage, Error, Result}
use durable_work_flow_engine.Db.{World, Pipe, pipe}
use durable_work_flow_engine.Db.Exec.{Exec, raise, lift, ◌>>=◌}
use durable_work_flow_engine.Db.Preserves.{
  Preserves, Preserves-bind, Preserves-if, Preserves-lift, Preserves-pure, Preserves-raise,
}
use durable_work_flow_engine.Db.Stream.{
  KeepsPipe, statement-KeepsPipe, transaction-KeepsPipe, bind-KeepsPipe, if-KeepsPipe,
  pure-KeepsPipe, raise-KeepsPipe, lift-KeepsPipe, read-KeepsPipe,
}
use durable_work_flow_engine.Publisher.Stream.{insert_outbox_event-KeepsPipe, update-KeepsPipe}
use durable_work_flow_engine.Worker.Stream.{select_task-KeepsPipe, insert_task-KeepsPipe}
use durable_work_flow_engine.Store.Executions.{
  get_workflow_definition, create_execution_and_task, create_execution_and_task_body,
  insert_execution, replay_dead_lettered_task_body, update_task_replayed,
}
use durable_work_flow_engine.Store
use durable_work_flow_engine.Store.Calls.{after_call, create_definition, create_execution, replay}
use durable_work_flow_engine.Store.Calls.Closed.{after_call-closed, read-preserves}
use durable_work_flow_engine.Store.Consistency.{IsConsistent, IsConsistent-closed}
use durable_work_flow_engine.Workflow.{
  parse_and_validate_workflow_definition, find_entry_task, is_blank,
}
use durable_work_flow_engine.Service.{
  catching, create_workflow_definition, trigger_execution, replay_dead_lettered_task,
  creation_error, fetch_error, replay_error, or_default,
}
use durable_work_flow_engine.System.Coverage.{NoneLost, IsNumberedPipe}
use durable_work_flow_engine.System.Delivering.{IsSound}
use durable_work_flow_engine.System.Requests.{
  create_workflow_definition-NoneLost, create_execution_and_task-NoneLost,
  replay_dead_lettered_task-NoneLost,
}

-- What an operation without use of the stream does to a sound state.
pub record IsHarmless {A : Type 0} (m : Exec A) : Type 0 where
  pub consistent : Preserves IsConsistent m
  pub piped : KeepsPipe m
  pub none_lost : (q : Pipe) → Preserves (λ db. NoneLost db q) m

pub IsHarmless-IsSound :
    {A : Type 0} (m : Exec A) (w : World) → IsHarmless m → IsSound w → IsSound (m w).1
IsHarmless-IsSound m w k h = (
  k.consistent.at w h.0,
  (
    subst IsNumberedPipe (sym (k.piped.same w)) h.1.0,
    subst (NoneLost (m w).1.db) (sym (k.piped.same w)) ((k.none_lost (pipe w)).at w h.1.1),
  ),
)

module _ {A : Type 0} where
  pub raise-IsHarmless : (e : Error) → IsHarmless (raise {A = A} e)
  raise-IsHarmless e = record {
    consistent = Preserves-raise e;
    piped = raise-KeepsPipe e;
    none_lost = λ q. Preserves-raise e;
  }

  lift-IsHarmless : (r : Result A) → IsHarmless (lift r)
  lift-IsHarmless r = record {
    consistent = Preserves-lift r;
    piped = lift-KeepsPipe r;
    none_lost = λ q. Preserves-lift r;
  }

  if-IsHarmless :
      (b : Bool) (m n : Exec A) → IsHarmless m → IsHarmless n → IsHarmless (if b then m else n)
  if-IsHarmless b m n k l = record {
    consistent = Preserves-if b m n k.consistent l.consistent;
    piped = if-KeepsPipe b m n k.piped l.piped;
    none_lost = λ q. Preserves-if b m n (k.none_lost q) (l.none_lost q);
  }

  catching-IsHarmless : (f : Error → Error) (m : Exec A) → IsHarmless m → IsHarmless (catching f m)
  catching-IsHarmless f m k = record {
    consistent = record { at = λ w h. k.consistent.at w h };
    piped = record { same = λ w. k.piped.same w };
    none_lost = λ q. record { at = λ w h. (k.none_lost q).at w h };
  }

pub bind-IsHarmless :
    {A B : Type 0} (m : Exec A) (f : A → Exec B)
    → IsHarmless m
    → ((a : A) → IsHarmless (f a))
    → IsHarmless (m >>= f)
bind-IsHarmless m f k l = record {
  consistent = Preserves-bind m f k.consistent (λ a. (l a).consistent);
  piped = bind-KeepsPipe m f k.piped (λ a. (l a).piped);
  none_lost = λ q. Preserves-bind m f (k.none_lost q) (λ a. (l a).none_lost q);
}

insert_execution-KeepsPipe :
    (d : String) (input : RawMessage) → KeepsPipe (insert_execution d input)
unfolding insert_execution
insert_execution-KeepsPipe d input = statement-KeepsPipe _ record { same = λ w. ground arith }

update_task_replayed-KeepsPipe : (id : String) → KeepsPipe (update_task_replayed id)
unfolding update_task_replayed
update_task_replayed-KeepsPipe id = statement-KeepsPipe _ record { same = λ w. refl }

create_definition-IsHarmless :
    (name description : String) (definition : RawMessage)
    → IsHarmless (Store.Executions.create_workflow_definition name description definition)
unfolding Store.Executions.create_workflow_definition after_call
create_definition-IsHarmless name description definition = record {
  consistent = record {
    at = after_call-closed IsConsistent-closed (create_definition name description definition);
  };
  piped = statement-KeepsPipe _ record { same = λ w. ground arith };
  none_lost = λ q. create_workflow_definition-NoneLost q name description definition;
}

create_execution-IsHarmless :
    (d : String) (input : RawMessage) (name key : String)
    → IsHarmless (create_execution_and_task d input name key)
unfolding create_execution_and_task create_execution_and_task_body after_call
create_execution-IsHarmless d input name key = record {
  consistent = record {
    at = after_call-closed IsConsistent-closed (create_execution d input name key);
  };
  piped = transaction-KeepsPipe _ (
      bind-KeepsPipe _ _ (insert_execution-KeepsPipe d _) λ execution.
        bind-KeepsPipe _ _ (insert_task-KeepsPipe _ _ _ _)
          λ task. bind-KeepsPipe _ _ (insert_outbox_event-KeepsPipe _) λ u. pure-KeepsPipe _);
  none_lost = λ q. create_execution_and_task-NoneLost q d input name key;
}

replay-IsHarmless : (id : String) → IsHarmless (Store.Executions.replay_dead_lettered_task id)
unfolding Store.Executions.replay_dead_lettered_task replay_dead_lettered_task_body after_call
replay-IsHarmless id = record {
  consistent = record { at = after_call-closed IsConsistent-closed (replay id) };
  piped = transaction-KeepsPipe _ (
      bind-KeepsPipe _ _ (select_task-KeepsPipe id) λ row. if-KeepsPipe _ _ _ (raise-KeepsPipe _) (
        bind-KeepsPipe _ _ (update_task_replayed-KeepsPipe _) λ updated.
          bind-KeepsPipe _ _ (update-KeepsPipe _)
            λ u. bind-KeepsPipe _ _ (insert_outbox_event-KeepsPipe _) λ u. pure-KeepsPipe _));
  none_lost = λ q. replay_dead_lettered_task-NoneLost q id;
}

get_definition-IsHarmless : (id : String) → IsHarmless (get_workflow_definition id)
unfolding get_workflow_definition
get_definition-IsHarmless id = record {
  consistent = Preserves-bind _ _ (read-preserves _) λ row. Preserves-pure _;
  piped = bind-KeepsPipe _ _ (read-KeepsPipe _) λ row. pure-KeepsPipe _;
  none_lost = λ q. Preserves-bind _ _ (read-preserves _) λ row. Preserves-pure _;
}

pub create_workflow_definition-IsHarmless :
    (name description : String) (definition : RawMessage)
    → IsHarmless (create_workflow_definition name description definition)
unfolding create_workflow_definition
create_workflow_definition-IsHarmless name description definition =
    if-IsHarmless (is_blank name) _ _ (raise-IsHarmless _) (
      bind-IsHarmless (lift (parse_and_validate_workflow_definition (or_default definition))) _
        (lift-IsHarmless (parse_and_validate_workflow_definition (or_default definition)))
        λ spec. catching-IsHarmless creation_error _ (create_definition-IsHarmless _ _ _))

pub trigger_execution-IsHarmless :
    (definition_id : String) (input : RawMessage)
    → IsHarmless (trigger_execution definition_id input)
unfolding trigger_execution
trigger_execution-IsHarmless definition_id input =
    if-IsHarmless (is_blank definition_id) _ _ (raise-IsHarmless _) (
      bind-IsHarmless (catching fetch_error (get_workflow_definition definition_id)) _
        (catching-IsHarmless fetch_error _ (get_definition-IsHarmless definition_id))
        λ definition.
          bind-IsHarmless (lift (parse_and_validate_workflow_definition definition.definition_json))
            _ (lift-IsHarmless (parse_and_validate_workflow_definition definition.definition_json))
            λ spec.
              bind-IsHarmless (lift (find_entry_task spec)) _
                (lift-IsHarmless (find_entry_task spec))
                λ entry. catching-IsHarmless _ _ (create_execution-IsHarmless _ _ _ _))

pub replay_dead_lettered_task-IsHarmless : (id : String) → IsHarmless (replay_dead_lettered_task id)
unfolding replay_dead_lettered_task
replay_dead_lettered_task-IsHarmless id =
    if-IsHarmless (is_blank id) _ _ (raise-IsHarmless _)
      (catching-IsHarmless replay_error _ (replay-IsHarmless _))
