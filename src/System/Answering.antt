-- ===== src/System/Answering.antt =====
-- The API of internal/httpapi forgets no task.
use durable_work_flow_engine.Prelude.{String, Bool-cases, inl, inr, Option, none, some, ◌==◌}
use durable_work_flow_engine.Domain.{Result, ok, err}
use durable_work_flow_engine.Db.{World}
use durable_work_flow_engine.HttpApi.{
  parse_task_action_path, decode_workflow_request, decode_trigger_request, Request,
  CreateWorkflowRequest, TriggerExecutionRequest, handle_workflows, handle_executions,
  handle_task_actions, after_workflow_request, after_trigger_request, after_action,
}
use durable_work_flow_engine.HttpApi.Server.{Answers, serve}
use durable_work_flow_engine.HttpApi.Frame.{IsFrame, Does, on_method-Does, serve-Does}
use durable_work_flow_engine.System.Delivering.{IsSound}
use durable_work_flow_engine.System.Serving.{
  IsHarmless-IsSound, create_workflow_definition-IsHarmless, trigger_execution-IsHarmless,
  replay_dead_lettered_task-IsHarmless,
}

abbrev StaysSound : World → World → Type 0
StaysSound w v = IsSound w → IsSound v

StaysSound-IsFrame : IsFrame StaysSound
StaysSound-IsFrame = record {
  same = λ w h. h;
  reading = λ m w k h.
      IsHarmless-IsSound m w
        (record { consistent = k.preserves; piped = k.piped; none_lost = λ q. k.preserves }) h;
}

workflow_request-Does :
    (r : Result CreateWorkflowRequest) → Does StaysSound-IsFrame (after_workflow_request r)
workflow_request-Does (err e) w h = h
workflow_request-Does (ok r) w h =
    IsHarmless-IsSound _ w (create_workflow_definition-IsHarmless r.name r.description r.definition)
      h

trigger_request-Does :
    (r : Result TriggerExecutionRequest) → Does StaysSound-IsFrame (after_trigger_request r)
trigger_request-Does (err e) w h = h
trigger_request-Does (ok r) w h =
    IsHarmless-IsSound _ w (trigger_execution-IsHarmless r.workflow_definition_id r.input) h

action-Does : (a : Option (String × String)) → Does StaysSound-IsFrame (after_action a)
action-Does none w h = h
action-Does (some (id, action)) w h = elim (Bool-cases (action == "replay")) [
  | inl replay ↦ rw replay (IsHarmless-IsSound _ w (replay_dead_lettered_task-IsHarmless id) h)
  | inr other ↦ rw other h
]

workflows-Does : (r : Request) → Does StaysSound-IsFrame (handle_workflows r)
unfolding handle_workflows
workflows-Does r =
    on_method-Does StaysSound-IsFrame "POST" r.method _
      λ own. workflow_request-Does (decode_workflow_request r.body)

executions-Does : (r : Request) → Does StaysSound-IsFrame (handle_executions r)
unfolding handle_executions
executions-Does r =
    on_method-Does StaysSound-IsFrame "POST" r.method _
      λ own. trigger_request-Does (decode_trigger_request r.body)

actions-Does : (r : Request) → Does StaysSound-IsFrame (handle_task_actions r)
unfolding handle_task_actions
actions-Does r =
    on_method-Does StaysSound-IsFrame "POST" r.method _
      λ own. action-Does (parse_task_action_path r.path)

pub serve-IsSound :
    (answers : Answers) (r : Request) (w : World) → IsSound w → IsSound (serve answers r w).1
serve-IsSound answers r w =
    serve-Does StaysSound-IsFrame r (workflows-Does r) (executions-Does r) (actions-Does r) answers
      w
