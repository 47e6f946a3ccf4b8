-- ===== src/Store/Idempotency.antt =====
-- internal/db/idempotency.go: one record for each handler and idempotency key.
use durable_work_flow_engine.Prelude.{
  ℕ, String, Bool, true, false, not, ◌&&◌, Option, none, some, [], ◌∷◌, ◌++◌, if◌then◌else◌, ◌==◌,
  any, find, filter, update_where,
}
use durable_work_flow_engine.Domain.{
  RawMessage, Json, raw_of_column, Result, ok, err, no_rows, idempotency_key_in_progress,
  IdempotencyStatus, in_progress, completed,
}
use durable_work_flow_engine.Db.Rows.{IdempotencyRow, Database}
use durable_work_flow_engine.Db.Exec.{
  check, now, change, Exec, pure, raise, lift, statement, row_or_none, ◌>>=◌, ◌>>◌,
}
use durable_work_flow_engine.Store.Sql.{foreign_key_violation, normalize_json, jsonb, has_task}

abbrev pub has_key : String → String → IdempotencyRow → Bool
has_key handler_key key r = (r.handler_key == handler_key) && (r.idempotency_key == key)

abbrev pub find_record : String → String → Database → Option IdempotencyRow
find_record handler_key key db = find (has_key handler_key key) db.idempotency_records

abbrev pub is_owned_by : String → Option String → Bool
is_owned_by task_id none = false
is_owned_by task_id (some owner) = owner == task_id

abbrev pub new_record : String → String → String → ℕ → IdempotencyRow
new_record handler_key key owner clock = record {
  handler_key = handler_key;
  idempotency_key = key;
  owner_task_instance_id = some owner;
  status = in_progress;
  response_json = none;
  created_at = clock;
  updated_at = clock;
}

abbrev pub add_record : IdempotencyRow → Database → Database
add_record row db = record db { idempotency_records = db.idempotency_records ++ row ∷ [] }

unfoldable pub insert_where_absent : Option IdempotencyRow → String → String → String → Exec Bool
insert_where_absent (some row) handler_key key owner = pure false
insert_where_absent none handler_key key owner = do
  check (λ w. has_task owner w.db) foreign_key_violation
  clock ← now
  change (add_record (new_record handler_key key owner clock))
  pure true

-- `INSERT ... ON CONFLICT (handler_key, idempotency_key) DO NOTHING`: was a row inserted?
unfoldable pub try_insert_record : String → String → String → Exec Bool
unfolding insert_where_absent
try_insert_record handler_key key owner =
    statement λ w. insert_where_absent (find_record handler_key key w.db) handler_key key owner w

unfoldable pub select_record : String → String → Exec IdempotencyRow
select_record handler_key key = statement λ w. (row_or_none (find_record handler_key key w.db), w)

-- The results `(response, true)` and `(nil, false)`.
pub data Begun : Type 0 where
  replayed : RawMessage → Begun
  proceed : Begun

-- What `BeginIdempotentTask` makes of a record that is there.
unfoldable pub after_conflict : String → IdempotencyStatus → IdempotencyRow → Result Begun
after_conflict owner completed row = ok (replayed (raw_of_column row.response_json))
after_conflict owner in_progress row =
    if is_owned_by owner row.owner_task_instance_id
    then ok proceed
    else err idempotency_key_in_progress

unfoldable pub begin_idempotent_task : String → String → String → Exec Begun
unfolding after_conflict
begin_idempotent_task handler_key key owner = do
  inserted ← try_insert_record handler_key key owner
  if inserted
      then pure proceed
      else do row ← select_record handler_key key; lift (after_conflict owner row.status row)

abbrev pub is_own_record : String → String → String → IdempotencyRow → Bool
is_own_record handler_key key owner r =
    has_key handler_key key r && is_owned_by owner r.owner_task_instance_id

abbrev pub completed_record : Json → ℕ → IdempotencyRow → IdempotencyRow
completed_record response clock r = record r {
  status = completed;
  response_json = some response;
  updated_at = clock;
}

abbrev pub set_record :
    (IdempotencyRow → Bool) → (IdempotencyRow → IdempotencyRow) → Database → Database
set_record p f db = record db { idempotency_records = update_where p f db.idempotency_records }

-- `UPDATE`, and whether it affected a row.
unfoldable pub update_record : String → String → String → RawMessage → Exec Bool
update_record handler_key key owner response = statement do
  j ← lift (jsonb response)
  clock ← now
  affected ← (λ w. (ok (any (is_own_record handler_key key owner) w.db.idempotency_records), w))
  change (set_record (is_own_record handler_key key owner) (completed_record j clock))
  pure affected

unfoldable pub complete_idempotent_task : String → String → String → RawMessage → Exec (Unit {0})
complete_idempotent_task handler_key key owner response = do
  affected ← update_record handler_key key owner (normalize_json response)
  if affected then pure tt else raise no_rows

abbrev pub is_in_progress : IdempotencyStatus → Bool
is_in_progress in_progress = true
is_in_progress completed = false

abbrev pub is_releasable : String → String → String → IdempotencyRow → Bool
is_releasable handler_key key owner r =
    is_own_record handler_key key owner r && is_in_progress r.status

abbrev pub delete_records : (IdempotencyRow → Bool) → Database → Database
delete_records p db = record db {
  idempotency_records = filter (λ r. not (p r)) db.idempotency_records;
}

unfoldable pub release_idempotent_task : String → String → String → Exec (Unit {0})
release_idempotent_task handler_key key owner =
    statement (change (delete_records (is_releasable handler_key key owner)))
