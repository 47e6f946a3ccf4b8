-- ===== src/HttpApi.antt =====
-- internal/httpapi/router.go and internal/httpapi/health.go: the routes of the API, with the statuses
-- and bodies of the answers.
pub mod Server
pub mod Paths
pub mod Limit
pub mod Frame
pub mod Safety
use durable_work_flow_engine.Prelude.{
  ℕ, zero, suc, String, Bool, true, false, ◌||◌, not, Option, none, some, List, [], ◌∷◌,
  if◌then◌else◌, ◌==◌, ℤ, pos, negsuc, trim_space, is_empty, trim_prefix, trim_of, split_on, atoi,
  after_prefix,
}
use durable_work_flow_engine.Domain.{
  RawMessage, empty, malformed, document, Json, null, obj, Fields, end, field, Error, error_text,
  errors_new, Result, ok, err, ◌<>◌, is_not_found, is_task_not_replayable, same_name,
  unmarshal_string, type_error, syntax_error, WorkflowDefinition, ExecutionStartResult,
  ExecutionSnapshot, TaskInstance,
}
use durable_work_flow_engine.Domain
use durable_work_flow_engine.Db.{World}
use durable_work_flow_engine.Db.Exec.{Exec, pure, statement, ◌>>=◌, ◌>>◌}
use durable_work_flow_engine.Workflow.{is_blank}
use durable_work_flow_engine.Service

-- `body` is the first JSON value of the request's body: `json.Decoder` reads no further. `limit` is
-- what `r.URL.Query().Get("limit")` returns.
pub record Request : Type 0 where
  pub method : String
  pub path : String
  pub limit : String
  pub body : RawMessage

-- The values that the answers carry as JSON.
pub data Payload : Type 0 where
  failure : String → Payload
  workflow : WorkflowDefinition → Payload
  execution_start : ExecutionStartResult → Payload
  snapshot : ExecutionSnapshot → Payload
  tasks : List TaskInstance → Payload
  task : TaskInstance → Payload
  healthy : (service : String) → Payload
  unhealthy : (service error : String) → Payload

pub data Body : Type 0 where
  no_body : Body
  -- `http.Error`
  plain : String → Body
  -- `writeJSON`
  json : Payload → Body

-- The headers are those that the code sets itself.
pub record Response : Type 0 where
  pub status : ℕ
  pub headers : List (String × String)
  pub body : Body

abbrev pub answer_with : ℕ → Body → Response
answer_with status body = record { status = status; headers = []; body = body }

abbrev pub write_json : ℕ → Payload → Response
write_json status payload = record {
  status = status;
  headers = ("Content-Type", "application/json") ∷ [];
  body = json payload;
}

abbrev pub Respond : Type 0
Respond = World → Response × World

abbrev pub reply : Response → Respond
reply r w = (r, w)

-- A call of the service, and what is answered to its result.
abbrev pub call : {A : Type 0} → (Result A → Response) → Exec A → Respond
call answer m w = let (r, w') = m w in (answer r, w')

-- The tests at the head of every handler of the API.
abbrev pub on_method : String → String → Respond → Respond
on_method allowed method then_do =
    if method == "OPTIONS"
    then reply (answer_with 204 no_body)
    else if not (method == allowed)
    then reply (answer_with 405 (plain "method not allowed"))
    else then_do

pub record CreateWorkflowRequest : Type 0 where
  pub name : String
  pub description : String
  pub definition : RawMessage

pub record TriggerExecutionRequest : Type 0 where
  pub workflow_definition_id : String
  pub input : RawMessage

unmarshal_workflow_field : String → Json → CreateWorkflowRequest → Result CreateWorkflowRequest
unmarshal_workflow_field key v r =
    if same_name key "name"
    then Domain.◌>>=◌ (unmarshal_string v r.name) (λ s. ok (record r { name = s }))
    else if same_name key "description"
    then Domain.◌>>=◌ (unmarshal_string v r.description) (λ s. ok (record r { description = s }))
    else if same_name key "definition"
    then ok (record r { definition = document v })
    else ok r

unmarshal_workflow_fields : Fields → CreateWorkflowRequest → Result CreateWorkflowRequest
unmarshal_workflow_fields end r = ok r
unmarshal_workflow_fields (field key v rest) r =
    Domain.◌>>=◌ (unmarshal_workflow_field key v r) (λ s. unmarshal_workflow_fields rest s)

unfoldable pub decode_workflow_request : RawMessage → Result CreateWorkflowRequest
unfolding unmarshal_workflow_fields unmarshal_workflow_field
decode_workflow_request (document null) =
    ok (record { name = ""; description = ""; definition = empty })
decode_workflow_request (document (obj fs)) =
    unmarshal_workflow_fields fs (record { name = ""; description = ""; definition = empty })
decode_workflow_request (document _) = type_error
decode_workflow_request _ = syntax_error

unmarshal_trigger_field : String → Json → TriggerExecutionRequest → Result TriggerExecutionRequest
unmarshal_trigger_field key v r =
    if same_name key "workflow_definition_id"
    then Domain.◌>>=◌ (unmarshal_string v r.workflow_definition_id)
        (λ s. ok (record r { workflow_definition_id = s }))
    else if same_name key "input"
    then ok (record r { input = document v })
    else ok r

unmarshal_trigger_fields : Fields → TriggerExecutionRequest → Result TriggerExecutionRequest
unmarshal_trigger_fields end r = ok r
unmarshal_trigger_fields (field key v rest) r =
    Domain.◌>>=◌ (unmarshal_trigger_field key v r) (λ s. unmarshal_trigger_fields rest s)

unfoldable pub decode_trigger_request : RawMessage → Result TriggerExecutionRequest
unfolding unmarshal_trigger_fields unmarshal_trigger_field
decode_trigger_request (document null) = ok (record { workflow_definition_id = ""; input = empty })
decode_trigger_request (document (obj fs)) =
    unmarshal_trigger_fields fs (record { workflow_definition_id = ""; input = empty })
decode_trigger_request (document _) = type_error
decode_trigger_request _ = syntax_error

abbrev pub created : Result WorkflowDefinition → Response
created (ok d) = write_json 201 (workflow d)
created (err e) = write_json 400 (failure (error_text e))

abbrev pub after_workflow_request : Result CreateWorkflowRequest → Respond
after_workflow_request (err e) = reply (write_json 400 (failure "invalid JSON body"))
after_workflow_request (ok r) =
    call created (Service.create_workflow_definition r.name r.description r.definition)

unfoldable pub handle_workflows : Request → Respond
handle_workflows r =
    on_method "POST" r.method (after_workflow_request (decode_workflow_request r.body))

abbrev pub triggered : Result ExecutionStartResult → Response
triggered (ok s) = write_json 202 (execution_start s)
triggered (err e) =
    if is_not_found e
    then write_json 404 (failure "workflow definition not found")
    else write_json 400 (failure (error_text e))

abbrev pub after_trigger_request : Result TriggerExecutionRequest → Respond
after_trigger_request (err e) = reply (write_json 400 (failure "invalid JSON body"))
after_trigger_request (ok r) =
    call triggered (Service.trigger_execution r.workflow_definition_id r.input)

unfoldable pub handle_executions : Request → Respond
handle_executions r =
    on_method "POST" r.method (after_trigger_request (decode_trigger_request r.body))

abbrev pub found_snapshot : Result ExecutionSnapshot → Response
found_snapshot (ok s) = write_json 200 (snapshot s)
found_snapshot (err e) =
    if is_not_found e
    then write_json 404 (failure "execution not found")
    else write_json 500 (failure "failed to load execution")

abbrev pub snapshot_of : String → Respond
snapshot_of execution_id =
    if is_empty execution_id
    then reply (write_json 400 (failure "execution id is required"))
    else call found_snapshot (Service.get_execution_snapshot execution_id)

unfoldable pub handle_execution_snapshot : Request → Respond
handle_execution_snapshot r =
    on_method "GET" r.method (snapshot_of (trim_prefix "/api/executions/" r.path))

abbrev pub positive_int : String → Option ℤ → Result ℤ
positive_int key none = err (errors_new (key <> " must be a valid integer"))
positive_int key (some (pos (suc n))) = ok (pos (suc n))
positive_int key (some _) = err (errors_new (key <> " must be greater than 0"))

-- `raw` is the value of the key in the query.
unfoldable pub parse_positive_int_query : String → String → Result ℤ
parse_positive_int_query raw key =
    if is_blank raw then ok (pos 0) else positive_int key (atoi (trim_space raw))

abbrev pub listed : Result (List TaskInstance) → Response
listed (ok ts) = write_json 200 (tasks ts)
listed (err e) = write_json 500 (failure "failed to load dead lettered tasks")

abbrev pub after_limit : Result ℤ → Respond
after_limit (err e) = reply (write_json 400 (failure (error_text e)))
after_limit (ok limit) = call listed (Service.get_dead_lettered_tasks limit)

unfoldable pub handle_dead_lettered_tasks : Request → Respond
handle_dead_lettered_tasks r =
    on_method "GET" r.method (after_limit (parse_positive_int_query r.limit "limit"))

-- The results `(parts[0], parts[1], true)` and `("", "", false)`.
abbrev pub action_of : List String → Option (String × String)
action_of (id ∷ action ∷ []) = if is_blank id || is_blank action then none else some (id, action)
action_of _ = none

unfoldable pub parse_task_action_path : String → Option (String × String)
parse_task_action_path path =
    action_of (split_on b'/' (trim_of b'/' (trim_prefix "/api/tasks/" path)))

abbrev pub replayed : Result TaskInstance → Response
replayed (ok t) = write_json 202 (task t)
replayed (err e) =
    if is_not_found e
    then write_json 404 (failure "task not found")
    else if is_task_not_replayable e
    then write_json 400 (failure "only dead-lettered tasks can be replayed")
    else write_json 500 (failure "failed to replay task")

abbrev pub after_action : Option (String × String) → Respond
after_action none = reply (write_json 404 (failure "task action not found"))
after_action (some (task_id, action)) =
    if action == "replay"
    then call replayed (Service.replay_dead_lettered_task task_id)
    else reply (write_json 404 (failure "task action not found"))

unfoldable pub handle_task_actions : Request → Respond
handle_task_actions r = on_method "POST" r.method (after_action (parse_task_action_path r.path))
