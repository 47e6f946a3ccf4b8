-- ===== src/Store/Outbox.antt =====
-- internal/db/store.go: the due retries and the outbox.
use durable_work_flow_engine.Prelude.{
  ℕ, ◌+◌, String, Bool, true, false, not, ◌&&◌, Option, none, some, List, [], ◌∷◌, ◌==◌, any,
  filter, map, sort_by, take, length, leb, update_where, bytes,
}
use durable_work_flow_engine.Domain.{
  Error, error_text, TaskStatus, OutboxEvent, DispatchTaskPayload, ok,
}
use durable_work_flow_engine.Db.{World, scan_outbox_event}
use durable_work_flow_engine.Db.Rows.{TaskRow, OutboxRow, Database}
use durable_work_flow_engine.Db.Exec.{
  check, now, change, Exec, pure, statement, transaction, ◌>>=◌, ◌>>◌,
}
use durable_work_flow_engine.Store.Sql.{
  out_of_range, integer_max, truncate, insert_outbox_event, set_task, update,
}

abbrev pub is_pending : TaskStatus → Bool
is_pending TaskStatus.pending = true
is_pending _ = false

-- `next_run_at IS NOT NULL AND next_run_at <= NOW()`
abbrev pub is_due : ℕ → Option ℕ → Bool
is_due clock none = false
is_due clock (some t) = leb t clock

-- `ORDER BY`, with NULL as the greatest value.
abbrev pub leb_or_null : Option ℕ → Option ℕ → Bool
leb_or_null s none = true
leb_or_null none (some t) = false
leb_or_null (some s) (some t) = leb s t

unfoldable pub due_tasks : ℕ → ℕ → Database → List TaskRow
due_tasks limit clock db = take limit (
    sort_by (λ s t. leb_or_null s.next_run_at t.next_run_at)
      (filter (λ t. is_pending t.status && is_due clock t.next_run_at) db.task_instances))

abbrev pub unscheduled_task : ℕ → TaskRow → TaskRow
unscheduled_task clock t = record t { next_run_at = none; updated_at = clock }

abbrev pub payload_of : TaskRow → DispatchTaskPayload
payload_of t = record {
  task_id = t.id;
  execution_id = t.workflow_execution_id;
  handler_key = t.handler_key;
}

-- The loop over `dueTasks`.
unfoldable pub enqueue_each : List TaskRow → Exec (Unit {0})
enqueue_each [] = pure tt
enqueue_each (item ∷ items) = do
  insert_outbox_event (payload_of item)
  update (λ clock. set_task item.id (unscheduled_task clock))
  enqueue_each items

unfoldable pub enqueue_due_task_retries_body : ℕ → Exec ℕ
enqueue_due_task_retries_body limit = do
  due ← statement λ w. (ok (due_tasks limit w.clock w.db), w)
  enqueue_each due
  pure (length due)

-- The count beside an error is left out: no caller reads it.
unfoldable pub enqueue_due_task_retries : ℕ → Exec ℕ
unfolding enqueue_due_task_retries_body
enqueue_due_task_retries limit = transaction (enqueue_due_task_retries_body limit)

abbrev pub is_undispatched : Option ℕ → Bool
is_undispatched none = true
is_undispatched (some t) = false

-- `WHERE dispatched_at IS NULL AND available_at <= NOW() ORDER BY created_at LIMIT $1`
unfoldable pub pending_events : ℕ → ℕ → Database → List OutboxRow
pending_events limit clock db = take limit (
    sort_by (λ d e. leb d.created_at e.created_at)
      (filter (λ e. is_undispatched e.dispatched_at && leb e.available_at clock) db.outbox_events))

unfoldable pub list_pending_outbox : ℕ → Exec (List OutboxEvent)
list_pending_outbox limit = do
  rows ← statement λ w. (ok (pending_events limit w.clock w.db), w)
  pure (map scan_outbox_event rows)

abbrev pub set_event : String → (OutboxRow → OutboxRow) → Database → Database
set_event id f db = record db { outbox_events = update_where (λ e. e.id == id) f db.outbox_events }

-- `attempt_count + 1` fits into an INTEGER in every row that is updated.
abbrev pub count_fits : String → World → Bool
count_fits id w =
    not (any (λ e. (e.id == id) && leb integer_max e.attempt_count) w.db.outbox_events)

abbrev pub dispatched_event : ℕ → OutboxRow → OutboxRow
dispatched_event clock e = record e {
  dispatched_at = some clock;
  attempt_count = e.attempt_count + 1;
}

unfoldable pub mark_outbox_dispatched : String → Exec (Unit {0})
mark_outbox_dispatched id = statement do
  check (count_fits id) out_of_range
  clock ← now
  change (set_event id (dispatched_event clock))

abbrev pub refused_event : List ℕ → OutboxRow → OutboxRow
refused_event text e = record e { attempt_count = e.attempt_count + 1; last_error_text = some text }

unfoldable pub record_outbox_failure : String → Error → Exec (Unit {0})
record_outbox_failure id dispatch_err = statement do
  check (count_fits id) out_of_range
  change (set_event id (refused_event (truncate (bytes (error_text dispatch_err)) 1000)))
