-- ===== src/Store/Sql.antt =====
-- What the statements of internal/db/store.go share: the inserts into each table, the constraints
-- that PostgreSQL checks, and the helpers at the end of the file.
use durable_work_flow_engine.Prelude.{
  ℕ, String, Bool, not, none, List, [], ◌∷◌, ◌++◌, leb, if◌then◌else◌, ◌==◌, any, take, length,
  find, update_where,
}
use durable_work_flow_engine.Domain.{
  RawMessage, empty, document, Json, obj, end, Error, Result, ok, err, pg_error, ◌<>◌, TaskStatus,
  DispatchTaskPayload, marshal_payload,
}
use durable_work_flow_engine.Db.Rows.{TaskRow, ExecutionRow, AttemptRow, OutboxRow, Database}
use durable_work_flow_engine.Db.Exec.{
  Exec, pure, lift, gen_random_uuid, check, now, change, statement, row_or_none, ◌>>=◌, ◌>>◌,
}

abbrev pub unique_violation : Error
unique_violation = pg_error "23505" "duplicate key value violates unique constraint"

abbrev pub foreign_key_violation : Error
foreign_key_violation = pg_error "23503" "insert violates foreign key constraint"

abbrev pub invalid_json : Error
invalid_json = pg_error "22P02" "invalid input syntax for type json"

abbrev pub out_of_range : Error
out_of_range = pg_error "22003" "integer out of range"

-- The largest value of an INTEGER column.
abbrev pub integer_max : ℕ
integer_max = 2147483647

unfoldable pub normalize_json : RawMessage → RawMessage
normalize_json empty = document (obj end)
normalize_json raw = raw

-- A parameter of a JSONB column.
abbrev pub jsonb : RawMessage → Result Json
jsonb (document j) = ok j
jsonb _ = err invalid_json

-- Go's `input[:limit]` on the bytes of a string.
unfoldable pub truncate : List ℕ → ℕ → List ℕ
truncate input limit = if leb (length input) limit then input else take limit input

unfoldable pub make_task_idempotency_key : String → String → String
make_task_idempotency_key execution_id task_name = execution_id <> ":" <> task_name

abbrev pub has_execution : String → Database → Bool
has_execution id db = any (λ e. e.id == id) db.workflow_executions

abbrev pub has_task : String → Database → Bool
has_task id db = any (λ t. t.id == id) db.task_instances

abbrev pub has_task_key : String → Database → Bool
has_task_key key db = any (λ t. t.idempotency_key == key) db.task_instances

abbrev pub new_task : String → String → String → String → Json → ℕ → TaskRow
new_task id execution_id task_name handler_key input clock = record {
  id = id;
  workflow_execution_id = execution_id;
  task_name = task_name;
  handler_key = handler_key;
  status = TaskStatus.pending;
  input_json = input;
  output_json = none;
  next_run_at = none;
  last_error_text = none;
  attempts_total = 0;
  idempotency_key = make_task_idempotency_key execution_id task_name;
  dispatched_at = none;
  completed_at = none;
  created_at = clock;
  updated_at = clock;
}

abbrev pub add_task : TaskRow → Database → Database
add_task row db = record db { task_instances = db.task_instances ++ row ∷ [] }

-- `INSERT INTO task_instances`, with its primary key, its unique key and its foreign key.
unfoldable pub insert_task : String → String → String → RawMessage → Exec TaskRow
insert_task execution_id task_name handler_key input = statement do
  j ← lift (jsonb input)
  id ← gen_random_uuid
  clock ← now
  check (λ w. not (has_task id w.db)) unique_violation
  check (λ w. not (has_task_key (make_task_idempotency_key execution_id task_name) w.db))
      unique_violation
  check (λ w. has_execution execution_id w.db) foreign_key_violation
  change (add_task (new_task id execution_id task_name handler_key j clock))
  pure (new_task id execution_id task_name handler_key j clock)

abbrev pub new_outbox_event : String → DispatchTaskPayload → ℕ → OutboxRow
new_outbox_event id payload clock = record {
  id = id;
  aggregate_type = "task_instance";
  aggregate_id = payload.task_id;
  event_type = "task.dispatch";
  payload_json = marshal_payload payload;
  available_at = clock;
  dispatched_at = none;
  attempt_count = 0;
  last_error_text = none;
  created_at = clock;
}

abbrev pub add_event : OutboxRow → Database → Database
add_event row db = record db { outbox_events = db.outbox_events ++ row ∷ [] }

-- `INSERT INTO outbox_events` for the dispatch of a task.
unfoldable pub insert_outbox_event : DispatchTaskPayload → Exec (Unit {0})
insert_outbox_event payload = statement do
  id ← gen_random_uuid
  clock ← now
  check (λ w. not (any (λ e. e.id == id) w.db.outbox_events)) unique_violation
  change (add_event (new_outbox_event id payload clock))

-- `SELECT ... FROM task_instances WHERE id = $1`
unfoldable pub select_task : String → Exec TaskRow
select_task id = statement λ w. (row_or_none (find (λ t. t.id == id) w.db.task_instances), w)

-- `UPDATE task_instances SET f WHERE id = $1`
abbrev pub set_task : String → (TaskRow → TaskRow) → Database → Database
set_task id f db = record db { task_instances = update_where (λ t. t.id == id) f db.task_instances }

abbrev pub set_execution : String → (ExecutionRow → ExecutionRow) → Database → Database
set_execution id f db = record db {
  workflow_executions = update_where (λ e. e.id == id) f db.workflow_executions;
}

abbrev pub set_attempt : String → (AttemptRow → AttemptRow) → Database → Database
set_attempt id f db = record db {
  task_attempts = update_where (λ a. a.id == id) f db.task_attempts;
}

-- An `UPDATE` by `tx.Exec`, whose count of rows is not looked at.
unfoldable pub update : (ℕ → Database → Database) → Exec (Unit {0})
update f = statement do clock ← now; change (f clock)

-- The same with a JSONB parameter.
unfoldable pub update_with_json : RawMessage → (Json → ℕ → Database → Database) → Exec (Unit {0})
update_with_json payload f = statement do j ← lift (jsonb payload); clock ← now; change (f j clock)
