-- ===== src/HttpApi/Server.antt =====
-- The health check of internal/httpapi/health.go, `NewRouter` and `cors` of internal/httpapi/router.go,
-- and what apps/api/main.go checks.
use durable_work_flow_engine.Prelude.{
  String, Bool, true, false, not, none, some, List, [], ◌∷◌, ◌++◌, if◌then◌else◌, ◌==◌,
  after_prefix,
}
use durable_work_flow_engine.Domain.{error_text, Result, ok, err}
use durable_work_flow_engine.Db.Exec.{Exec, pure, statement, ◌>>◌}
use durable_work_flow_engine.HttpApi.{
  Request, Response, Respond, reply, answer_with, write_json, call, plain, no_body, healthy,
  unhealthy, handle_workflows, handle_executions, handle_execution_snapshot, handle_task_actions,
  handle_dead_lettered_tasks,
}

-- `PING` of PostgreSQL and of Redis.
unfoldable pub ping : Exec (Unit {0})
ping = statement (pure tt)

-- The check that the API is given: both are there.
unfoldable pub check_health : Exec (Unit {0})
check_health = do ping; ping

abbrev pub health_of : String → Result (Unit {0}) → Response
health_of service (ok u) = write_json 200 (healthy service)
health_of service (err e) = write_json 503 (unhealthy service (error_text e))

unfoldable pub handle_health : String → Request → Respond
handle_health service r =
    if not (r.method == "GET")
    then reply (answer_with 405 (plain "method not allowed"))
    else call (health_of service) check_health

-- What the libraries answer themselves: the metrics of Prometheus, and the redirection and the 404 of
-- `http.ServeMux`.
pub record Answers : Type 0 where
  pub metrics : Response
  pub moved : String → Response
  pub not_found : Response

abbrev pub has_prefix : String → String → Bool
has_prefix p s = elim (after_prefix p s) [ some rest ↦ true | none ↦ false ]

-- The patterns of `NewRouter`, for paths that are clean: a pattern that ends in `/` stands for all
-- paths below it, and its own path without the slash is redirected, unless it has a pattern too.
unfoldable pub serve_mux : Answers → Request → Respond
serve_mux answers r =
    if r.path == "/metrics"
    then reply answers.metrics
    else if r.path == "/healthz"
    then handle_health "api" r
    else if r.path == "/api/workflows"
    then handle_workflows r
    else if r.path == "/api/executions"
    then handle_executions r
    else if has_prefix "/api/executions/" r.path
    then handle_execution_snapshot r
    else if has_prefix "/api/tasks/" r.path
    then handle_task_actions r
    else if r.path == "/api/tasks"
    then reply (answers.moved "/api/tasks/")
    else if r.path == "/api/dead-letter-tasks"
    then handle_dead_lettered_tasks r
    else if r.path == "/api/dead-lettered-tasks"
    then handle_dead_lettered_tasks r
    else reply answers.not_found

abbrev pub cors_headers : List (String × String)
cors_headers =
    ("Access-Control-Allow-Origin", "*")
    ∷ ("Access-Control-Allow-Headers", "Content-Type")
    ∷ ("Access-Control-Allow-Methods", "GET,POST,OPTIONS")
    ∷ []

abbrev pub with_headers : List (String × String) → Response → Response
with_headers hs r = record r { headers = hs ++ r.headers }

unfoldable pub cors : (Request → Respond) → Request → Respond
cors inner r w =
    if r.method == "OPTIONS"
    then (with_headers cors_headers (answer_with 204 no_body), w)
    else (let (response, w') = inner r w in (with_headers cors_headers response, w'))

-- `NewRouter`
unfoldable pub serve : Answers → Request → Respond
serve answers = cors (serve_mux answers)
