-- ===== src/Handlers/Answers.antt =====
-- When `BeginIdempotentTask` and `CompleteIdempotentTask` of internal/db/idempotency.go answer.
use durable_work_flow_engine.Prelude.{
  ℕ, ◌+◌, String, ◌≡◌, refl, ap, ◌∙◌, inl, inr, Bool, true, false, some, List, [], ◌∷◌, arith, any,
  find, All, Distinct, update_where, eq_iff, Bool-cases, if◌then◌else◌,
}
use durable_work_flow_engine.Domain.{RawMessage, document, raw_of_column, Json, ok, completed}
use durable_work_flow_engine.Db.{World, fine}
use durable_work_flow_engine.Db.Rows.{Database, IdempotencyRow}
use durable_work_flow_engine.Db.Exec.{
  Exec, counted, statement, statement-ok, ◌>>=◌, >>=-ok, pure, lift,
}
use durable_work_flow_engine.Store.Attempts.Start.{row_or_none-ok}
use durable_work_flow_engine.Store.Sql.{normalize_json}
use durable_work_flow_engine.Store.Idempotency.{
  has_key, find_record, is_own_record, is_owned_by, completed_record, Begun, replayed, proceed,
  insert_where_absent, try_insert_record, select_record, after_conflict, begin_idempotent_task,
  update_record, set_record, complete_idempotent_task,
}
use durable_work_flow_engine.Store.Consistency.{IsConsistent}

-- The record of the key is completed, with this response.
pub record IsAnswered (h k : String) (response : RawMessage) (db : Database) : Type 0 where
  pub row : IdempotencyRow
  pub found : find_record h k db ≡ some row
  pub status : row.status ≡ completed
  pub response_is : raw_of_column row.response_json ≡ response

-- The next two round trips succeed.
abbrev pub Reaches : World → Type 0
Reaches w = (w.faults w.calls ≡ fine) × (w.faults (w.calls + 1) ≡ fine)

-- `BeginIdempotentTask` answers from a completed record, and writes nothing.
pub begin_answered :
    (h k owner : String) (response : RawMessage) (w : World)
    → IsAnswered h k response w.db
    → Reaches w
    → ((begin_idempotent_task h k owner w).0 ≡ ok (replayed response))
      × ((begin_idempotent_task h k owner w).1.db ≡ w.db)
unfolding begin_idempotent_task try_insert_record select_record after_conflict insert_where_absent
    statement
begin_answered h k owner response w a f =
    let found = a.found in
    let status = a.status in
    (
      ground (arith, found, status, a.response_is, f.0, f.1),
      ground (arith, found, status, f.0, f.1),
    )

-- Two records do not have one key.
no_other :
    (h k owner : String) (r : IdempotencyRow) (rows : List IdempotencyRow)
    → has_key h k r ≡ true
    → All (λ q. has_key r.handler_key r.idempotency_key q ≡ false) rows
    → any (is_own_record h k owner) rows ≡ true
    → ⊥
no_other h k owner r [] keyed d e = cc
no_other h k owner r (q ∷ rows) keyed d e = elim (Bool-cases (is_own_record h k owner q)) [
  | inr other ↦ no_other h k owner r rows keyed d.1 (ground (arith, other))
  | inl own ↦ ground (
    arith,
    eq_iff r.handler_key h,
    eq_iff r.idempotency_key k,
    eq_iff q.handler_key h,
    eq_iff q.idempotency_key k,
    eq_iff q.handler_key r.handler_key,
    eq_iff q.idempotency_key r.idempotency_key,
    d.0,
    own,
    keyed,
  )
]

-- Where the keys are distinct, the record that an owner completes is the one that is found.
completes :
    (h k owner : String) (j : Json) (clock : ℕ) (rows : List IdempotencyRow)
    → Distinct (λ q r. has_key q.handler_key q.idempotency_key r) rows
    → any (is_own_record h k owner) rows ≡ true
    → (r : IdempotencyRow) × (find
          (has_key h k)
          (update_where (is_own_record h k owner) (completed_record j clock) rows)
        ≡ some (completed_record j clock r))
completes h k owner j clock [] d e = absurd (cc)
completes h k owner j clock (r ∷ rows) d e = elim (Bool-cases (has_key h k r)) [
  | inr other ↦
      let own : is_own_record h k owner r ≡ false = ground (arith, other) in
      let (found, rest) = completes h k owner j clock rows d.1 (ground (arith, own)) in
      (found, rw (own, other) rest)
  | inl keyed ↦ elim (Bool-cases (is_owned_by owner r.owner_task_instance_id)) [
    | inl own ↦ (r, rw (keyed, own) (rw keyed refl))
    | inr foreign ↦ absurd (no_other h k owner r rows keyed d.0 (ground (arith, keyed, foreign)))
  ]
]

update_record-ok :
    (h k owner : String) (j : Json) (w w' : World) (affected : Bool)
    → update_record h k owner (document j) w ≡ (ok affected, w')
    → (any (is_own_record h k owner) w.db.idempotency_records ≡ affected)
      × (w'.db ≡ set_record (is_own_record h k owner) (completed_record j w.clock) w.db)
unfolding update_record
update_record-ok h k owner j w w' affected e =
    let ran = statement-ok _ w w' affected e in (ground arith, ground arith)

pub complete_answers :
    (h k owner : String) (j : Json) (w w' : World) (u : Unit {0})
    → IsConsistent w.db
    → complete_idempotent_task h k owner (document j) w ≡ (ok u, w')
    → IsAnswered h k (document j) w'.db
unfolding complete_idempotent_task normalize_json
complete_answers h k owner j w w' u c e =
    let (affected, w1, updated, last) = >>=-ok (update_record h k owner (document j)) _ w w' u e in
    let (was, written) = update_record-ok h k owner j w w1 affected updated in
    let is_affected : affected ≡ true = ground arith in
    let same : w' ≡ w1 = ground arith in
    let (r, found) =
      completes h k owner j w.clock w.db.idempotency_records c.record_keys (was ∙ is_affected) in
    record {
      row = completed_record j w.clock r;
      found = ap (λ x. find_record h k x.db) same ∙ ap (λ d. find_record h k d) written ∙ found;
      status = refl;
      response_is = refl;
    }

insert_proceeds :
    (inserted : Bool) (m : Exec Begun) (w w' : World) (response : RawMessage)
    → inserted ≡ true
    → (if inserted then pure proceed else m) w ≡ (ok (replayed response), w')
    → ⊥
insert_proceeds true m w w' response new e = cc
insert_proceeds false m w w' response new e = cc

-- The part of `BeginIdempotentTask` that reads the record.
abbrev record_answer : String → String → String → Exec Begun
record_answer h k owner = select_record h k >>= λ row. lift (after_conflict owner row.status row)

after_conflict-replayed :
    (owner : String) (row : IdempotencyRow) (response : RawMessage)
    → after_conflict owner row.status row ≡ ok (replayed response)
    → (row.status ≡ completed) × (raw_of_column row.response_json ≡ response)
unfolding after_conflict
after_conflict-replayed owner row response e = (ground arith, ground arith)

record_answer-IsAnswered :
    (h k owner : String) (response : RawMessage) (w w' : World)
    → record_answer h k owner w ≡ (ok (replayed response), w')
    → IsAnswered h k response w'.db
unfolding select_record
record_answer-IsAnswered h k owner response w w' e =
    let (row, w1, selected, rest) = >>=-ok (select_record h k) _ w w' (replayed response) e in
    let (found, same) = row_or_none-ok _ (counted w) w1 row (statement-ok _ w w1 row selected) in
    let is_found : find_record h k (counted w).db ≡ some row = found in
    let is_counted : w1 ≡ counted w = same in
    let answer : after_conflict owner row.status row ≡ ok (replayed response) = ground arith in
    let (status, response_is) = after_conflict-replayed owner row response answer in
    let final : w' ≡ w1 = ground arith in
    record {
      row = row;
      found = ap (λ x. find_record h k x.db) (final ∙ same) ∙ found;
      status = status;
      response_is = response_is;
    }

-- `BeginIdempotentTask` answers only from a completed record.
pub begin_replayed :
    (h k owner : String) (response : RawMessage) (w w' : World)
    → begin_idempotent_task h k owner w ≡ (ok (replayed response), w')
    → IsAnswered h k response w'.db
unfolding begin_idempotent_task
begin_replayed h k owner response w w' e =
    let (inserted, w1, tried, rest) =
      >>=-ok (try_insert_record h k owner) _ w w' (replayed response) e in
    elim (Bool-cases inserted) [
      | inl new ↦
          absurd (insert_proceeds inserted (record_answer h k owner) w1 w' response new rest)
      | inr old ↦ record_answer-IsAnswered h k owner response w1 w' (rw old at rest)
    ]
