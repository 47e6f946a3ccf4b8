-- ===== src/Workflow/Decode.antt =====
-- `json.Unmarshal` into `WorkflowDefinitionSpec` and `WorkflowTaskSpec` of internal/domain/models.go.
use durable_work_flow_engine.Prelude.{String, List, [], ◌∷◌, if◌then◌else◌, pos}
use durable_work_flow_engine.Domain.{
  WorkflowDefinitionSpec, WorkflowTaskSpec, RawMessage, Json, null, arr, Elems, nil, cons, Result,
  ok, ◌>>=◌, same_name, type_error, unmarshal_string, unmarshal_int, unmarshal_object,
  unmarshal_struct,
}

abbrev zero_task_spec : WorkflowTaskSpec
zero_task_spec = record {
  name = "";
  handler_key = "";
  max_attempts = pos 0;
  backoff_seconds = pos 0;
  next_task = "";
}

unmarshal_task_field : String → Json → WorkflowTaskSpec → Result WorkflowTaskSpec
unmarshal_task_field key v t =
    if same_name key "name"
    then (do s ← unmarshal_string v t.name; ok (record t { name = s }))
    else if same_name key "handler_key"
    then (do s ← unmarshal_string v t.handler_key; ok (record t { handler_key = s }))
    else if same_name key "max_attempts"
    then (do n ← unmarshal_int v t.max_attempts; ok (record t { max_attempts = n }))
    else if same_name key "backoff_seconds"
    then (do n ← unmarshal_int v t.backoff_seconds; ok (record t { backoff_seconds = n }))
    else if same_name key "next_task"
    then (do s ← unmarshal_string v t.next_task; ok (record t { next_task = s }))
    else ok t

unmarshal_task : Json → Result WorkflowTaskSpec
unfolding unmarshal_object
unmarshal_task j = unmarshal_object unmarshal_task_field zero_task_spec j

unmarshal_elems : Elems → Result (List WorkflowTaskSpec)
unmarshal_elems nil = ok []
unmarshal_elems (cons v vs) = do t ← unmarshal_task v; ts ← unmarshal_elems vs; ok (t ∷ ts)

unmarshal_tasks : Json → Result (List WorkflowTaskSpec)
unmarshal_tasks null = ok []
unmarshal_tasks (arr vs) = unmarshal_elems vs
unmarshal_tasks _ = type_error

unmarshal_spec_field : String → Json → WorkflowDefinitionSpec → Result WorkflowDefinitionSpec
unmarshal_spec_field key v w =
    if same_name key "entry_task"
    then (do s ← unmarshal_string v w.entry_task; ok (record w { entry_task = s }))
    else if same_name key "tasks"
    then (do ts ← unmarshal_tasks v; ok (record w { tasks = ts }))
    else ok w

abbrev zero_spec : WorkflowDefinitionSpec
zero_spec = record { entry_task = ""; tasks = [] }

unfoldable pub unmarshal_spec : RawMessage → Result WorkflowDefinitionSpec
unfolding unmarshal_struct unmarshal_spec_field unmarshal_tasks unmarshal_elems unmarshal_task
    unmarshal_task_field unmarshal_int unmarshal_string same_name
unmarshal_spec raw = unmarshal_struct unmarshal_spec_field zero_spec raw
