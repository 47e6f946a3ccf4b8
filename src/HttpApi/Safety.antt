-- ===== src/HttpApi/Safety.antt =====
-- Which requests to internal/httpapi change the tables.
use durable_work_flow_engine.Prelude.{◌≡◌, ◌≢◌, refl, eq_iff}
use durable_work_flow_engine.Db.{World}
use durable_work_flow_engine.HttpApi.{
  Request, Respond, handle_workflows, handle_executions, handle_task_actions,
  after_workflow_request, after_trigger_request, after_action, on_method, decode_workflow_request,
  decode_trigger_request, parse_task_action_path,
}
use durable_work_flow_engine.HttpApi.Server.{Answers, serve}
use durable_work_flow_engine.HttpApi.Frame.{IsFrame, Does, on_method-Does, serve-Does}

abbrev SameTables : World → World → Type 0
SameTables w v = v.db ≡ w.db

SameTables-IsFrame : IsFrame SameTables
SameTables-IsFrame = record {
  same = λ w. refl;
  reading = λ m w k. (k.preserves {P = λ d. d ≡ w.db}).at w refl;
}

module _ (r : Request) (no_post : r.method ≢ "POST") where
  post-Does : (f : Respond) → Does SameTables-IsFrame (on_method "POST" r.method f)
  post-Does f =
      on_method-Does SameTables-IsFrame "POST" r.method f
        λ own. absurd (no_post ((eq_iff r.method "POST").0 own))

  workflows-Does : Does SameTables-IsFrame (handle_workflows r)
  unfolding handle_workflows
  workflows-Does = post-Does (after_workflow_request (decode_workflow_request r.body))

  executions-Does : Does SameTables-IsFrame (handle_executions r)
  unfolding handle_executions
  executions-Does = post-Does (after_trigger_request (decode_trigger_request r.body))

  actions-Does : Does SameTables-IsFrame (handle_task_actions r)
  unfolding handle_task_actions
  actions-Does = post-Does (after_action (parse_task_action_path r.path))

-- A request by any method but POST leaves the tables as they are, on every path and under any faults.
pub serve-read_only :
    (answers : Answers) (r : Request) (w : World)
    → r.method ≢ "POST"
    → (serve answers r w).1.db ≡ w.db
serve-read_only answers r w no_post =
    serve-Does SameTables-IsFrame r (workflows-Does r no_post) (executions-Does r no_post)
      (actions-Does r no_post) answers w
