-- ===== src/HttpApi/Frame.antt =====
-- What the handlers of internal/httpapi do to the world, for the handlers by POST being given.
use durable_work_flow_engine.Prelude.{
  String, ◌≡◌, Bool, true, false, Bool-cases, ◌⊎◌, inl, inr, if◌then◌else◌, ◌==◌, ℤ, is_empty,
  trim_prefix,
}
use durable_work_flow_engine.Domain.{Result, ok, err}
use durable_work_flow_engine.Db.{World}
use durable_work_flow_engine.Db.Rows.{Database}
use durable_work_flow_engine.Db.Exec.{Exec, pure, statement, ◌>>=◌}
use durable_work_flow_engine.Db.Preserves.{Preserves, Preserves-bind, Preserves-pure}
use durable_work_flow_engine.Db.Stream.{KeepsPipe, bind-KeepsPipe, pure-KeepsPipe, read-KeepsPipe}
use durable_work_flow_engine.Store
use durable_work_flow_engine.Store.Executions.{list_dead_lettered_tasks}
use durable_work_flow_engine.Store.Snapshot.{select_tasks_of, select_attempts_of}
use durable_work_flow_engine.Store.Calls.Closed.{read-preserves}
use durable_work_flow_engine.Service.{get_execution_snapshot, get_dead_lettered_tasks}
use durable_work_flow_engine.HttpApi.{
  Request, Response, Respond, reply, on_method, handle_workflows, handle_executions,
  handle_execution_snapshot, handle_dead_lettered_tasks, handle_task_actions, after_limit,
  snapshot_of,
}
use durable_work_flow_engine.HttpApi.Server.{
  Answers, check_health, ping, handle_health, serve_mux, cors, serve, has_prefix,
}

-- What is read leaves everything as it is.
pub record IsReading {A : Type 0} (m : Exec A) : Type 1 where
  pub preserves : {P : Database → Type 0} → Preserves P m
  pub piped : KeepsPipe m

read-IsReading : {A : Type 0} (f : World → Result A) → IsReading (statement λ w. (f w, w))
read-IsReading f = record { preserves = read-preserves f; piped = read-KeepsPipe f }

bind-IsReading :
    {A B : Type 0} (m : Exec A) (f : A → Exec B)
    → IsReading m
    → ((a : A) → IsReading (f a))
    → IsReading (m >>= f)
bind-IsReading m f k l = record {
  preserves = Preserves-bind m f k.preserves (λ a. (l a).preserves);
  piped = bind-KeepsPipe m f k.piped (λ a. (l a).piped);
}

pure-IsReading : {A : Type 0} (a : A) → IsReading (pure a)
pure-IsReading a = record { preserves = Preserves-pure a; piped = pure-KeepsPipe a }

get_execution_snapshot-IsReading : (id : String) → IsReading (get_execution_snapshot id)
unfolding get_execution_snapshot Store.Snapshot.get_execution_snapshot select_tasks_of
    select_attempts_of
get_execution_snapshot-IsReading id = bind-IsReading _ _ (read-IsReading _) λ execution.
    bind-IsReading _ _ (read-IsReading _)
      λ task_rows. bind-IsReading _ _ (read-IsReading _) λ attempt_rows. pure-IsReading _

get_dead_lettered_tasks-IsReading : (limit : ℤ) → IsReading (get_dead_lettered_tasks limit)
unfolding get_dead_lettered_tasks list_dead_lettered_tasks
get_dead_lettered_tasks-IsReading limit =
    bind-IsReading _ _ (read-IsReading _) λ rows. pure-IsReading _

check_health-IsReading : IsReading check_health
unfolding check_health ping
check_health-IsReading =
    bind-IsReading _ _ (read-IsReading λ w. ok tt) λ u. read-IsReading λ w. ok tt

-- What an answer does to the world, for a relation of the worlds before and after that is one for
-- reading, and for no calls at all.
pub record IsFrame (R : World → World → Type 0) : Type 1 where
  pub same : (w : World) → R w w
  pub reading : {A : Type 0} (m : Exec A) (w : World) → IsReading m → R w (m w).1

module _ {R : World → World → Type 0} (k : IsFrame R) where
  abbrev pub Does : Respond → Type 0
  Does f = (w : World) → R w (f w).1

  if-Does : (b : Bool) (f g : Respond) → Does f → Does g → Does (if b then f else g)
  if-Does true f g h k = h
  if-Does false f g h k = k

  pub on_method-Does :
      (allowed method : String) (f : Respond)
      → ((method == allowed) ≡ true → Does f)
      → Does (on_method allowed method f)
  on_method-Does allowed method f h w = elim (Bool-cases (method == "OPTIONS")) [
    | inl options ↦ rw options (k.same w)
    | inr other ↦ elim (Bool-cases (method == allowed)) [
      | inl own ↦ rw (other, own) (h own w)
      | inr wrong ↦ rw (other, wrong) (k.same w)
    ]
  ]

  snapshot-Does : (r : Request) → Does (handle_execution_snapshot r)
  unfolding handle_execution_snapshot
  snapshot-Does r =
      on_method-Does "GET" r.method _
        λ own w. go w (Bool-cases (is_empty (trim_prefix "/api/executions/" r.path)))
    where
      go :
          (w : World)
          → (is_empty (trim_prefix "/api/executions/" r.path) ≡ true)
            ⊎ (is_empty (trim_prefix "/api/executions/" r.path) ≡ false)
          → R w (snapshot_of (trim_prefix "/api/executions/" r.path) w).1
      go w (inl e) = rw e (k.same w)
      go w (inr e) = rw e (k.reading _ w (get_execution_snapshot-IsReading _))

  limit-Does : (r : Result ℤ) → Does (after_limit r)
  limit-Does (err e) w = k.same w
  limit-Does (ok limit) w = k.reading _ w (get_dead_lettered_tasks-IsReading limit)

  dead_lettered-Does : (r : Request) → Does (handle_dead_lettered_tasks r)
  unfolding handle_dead_lettered_tasks
  dead_lettered-Does r = on_method-Does "GET" r.method _ λ own. limit-Does _

  health-Does : (r : Request) → Does (handle_health "api" r)
  unfolding handle_health
  health-Does r w = elim (Bool-cases (r.method == "GET")) [
    | inl own ↦ rw own (k.reading check_health w check_health-IsReading)
    | inr other ↦ rw other (k.same w)
  ]

  -- The handlers by POST are given with the request.
  module _ (r : Request) (workflows : Does (handle_workflows r))
      (executions : Does (handle_executions r)) (actions : Does (handle_task_actions r)) where
    serve_mux-Does : (answers : Answers) → Does (serve_mux answers r)
    unfolding serve_mux
    serve_mux-Does answers =
        let still : (x : Response) → Does (reply x) = λ x w. k.same w in
        if-Does (r.path == "/metrics") _ _ (still answers.metrics) (
          if-Does (r.path == "/healthz") _ _ (health-Does r) (
            if-Does (r.path == "/api/workflows") _ _ workflows (
              if-Does (r.path == "/api/executions") _ _ executions (
                if-Does (has_prefix "/api/executions/" r.path) _ _ (snapshot-Does r) (
                  if-Does (has_prefix "/api/tasks/" r.path) _ _ actions (
                    if-Does (r.path == "/api/tasks") _ _ (still (answers.moved "/api/tasks/")) (
                      if-Does (r.path == "/api/dead-letter-tasks") _ _ (dead_lettered-Does r) (
                        if-Does (r.path == "/api/dead-lettered-tasks") _ _ (dead_lettered-Does r)
                          (still answers.not_found)))))))))

    pub serve-Does : (answers : Answers) → Does (serve answers r)
    unfolding serve cors
    serve-Does answers w = elim (Bool-cases (r.method == "OPTIONS")) [
      | inl options ↦ rw options (k.same w)
      | inr other ↦ rw other (serve_mux-Does answers w)
    ]
