-- ===== src/Store/Attempts/Start.antt =====
-- What `StartTaskAttempt` does when it succeeds.
use durable_work_flow_engine.Prelude.{
  ℕ, ◌+◌, String, ◌≡◌, refl, ap, sym, subst, ◌∙◌, ◌⊎◌, inl, inr, true, false, Option, none, some,
  List, [], ◌∷◌, arith, find, same_some, update_where, eq_iff, ◌==◌, Bool-cases,
}
use durable_work_flow_engine.Domain.{Result, ok, TaskInstance, TaskAttempt}
use durable_work_flow_engine.Db.{World, scan_task_instance, scan_task_attempt}
use durable_work_flow_engine.Db.Rows.{Database, TaskRow, AttemptRow}
use durable_work_flow_engine.Db.Exec.{
  Exec, counted, statement-ok, row_or_none, ◌>>=◌, >>=-ok, transaction-ok, transaction_cases, pure,
}
use durable_work_flow_engine.Store.Sql.{select_task, set_task}
use durable_work_flow_engine.Store.Attempts.{
  Started, already_completed, started, start_task_attempt, start_task_attempt_body, insert_attempt,
  update_task_started, add_attempt, new_attempt, started_row, is_terminal,
}

-- The result of a statement that returns a row.
pub row_or_none-ok :
    {A : Type 0} (o : Option A) (u w : World) (a : A)
    → ◌≡◌ {A = Result A × World} (row_or_none o, u) (ok a, w)
    → (o ≡ some a) × (w ≡ u)
row_or_none-ok none u w a e = cc
row_or_none-ok (some b) u w a e = (ground arith, ground arith)

pub select_task-ok :
    (id : String) (w w' : World) (row : TaskRow)
    → select_task id w ≡ (ok row, w')
    → (find (λ t. t.id == id) w.db.task_instances ≡ some row) × (w' ≡ counted w)
unfolding select_task
select_task-ok id w w' row h = row_or_none-ok _ (counted w) w' row (statement-ok _ w w' row h)

insert_attempt-ok :
    (id : String) (n : ℕ) (w w' : World) (row : AttemptRow)
    → insert_attempt id n w ≡ (ok row, w')
    → (row ≡ new_attempt (w.uuids w.drawn) id n w.clock)
      × (w'.db ≡ add_attempt row w.db)
      × (w'.clock ≡ w.clock)
unfolding insert_attempt
insert_attempt-ok id n w w' row h =
    let e = statement-ok _ w w' row h in (ground arith, ground arith, ground arith)

update_task_started-ok :
    (id : String) (n : ℕ) (w w' : World) (row : TaskRow)
    → update_task_started id n w ≡ (ok row, w')
    → (w'.db ≡ set_task id (started_row n w.clock) w.db)
      × (find (λ t. t.id == id) w'.db.task_instances ≡ some row)
unfolding update_task_started
update_task_started-ok id n w w' row h =
    let u = record (counted w) { db = set_task id (started_row n w.clock) w.db } in
    let (found, same) = row_or_none-ok _ u w' row (statement-ok _ w w' row h) in
    (
      ap (λ x. x.db) same,
      subst (λ x. find (λ t. t.id == id) x.db.task_instances ≡ some row) (sym same) found,
    )

-- What `find` by id returns after `UPDATE ... WHERE id = $1 RETURNING`.
pub find-update_where :
    (id : String) (f : TaskRow → TaskRow) (ts : List TaskRow) (row : TaskRow)
    → ((t : TaskRow) → (f t).id ≡ t.id)
    → find (λ t. t.id == id) ts ≡ some row
    → find (λ t. t.id == id) (update_where (λ t. t.id == id) f ts) ≡ some (f row)
find-update_where id f [] row k h = cc
find-update_where id f (t ∷ ts) row k h = elim (Bool-cases (t.id == id)) [
  | inl e ↦
      let e' : (f t).id == id ≡ true = ap (λ z. z == id) (k t) ∙ e in
      let same : t ≡ row = ground arith in rw (e, e') (ap (λ z. some (f z)) same)
  | inr e ↦ rw (e, e) (find-update_where id f ts row k (ground arith))
]

pub find_id :
    (id : String) (ts : List TaskRow) (row : TaskRow)
    → find (λ t. t.id == id) ts ≡ some row
    → row.id ≡ id
find_id id [] row h = cc
find_id id (t ∷ ts) row h = ground (arith, eq_iff t.id id, find_id id ts row)

-- What a success of `StartTaskAttempt` tells: the row that it found, and what became of it.
pub record IsSkipped (id : String) (w : World) (db : Database) (t : TaskInstance) : Type 0 where
  pub row : TaskRow
  pub found : find (λ t. t.id == id) w.db.task_instances ≡ some row
  pub terminal : is_terminal row.status ≡ true
  pub task : t ≡ scan_task_instance row
  pub unchanged : db ≡ w.db

pub record IsStarted (id : String) (w : World) (db : Database) (t : TaskInstance) (a : TaskAttempt)
    : Type 0 where
  pub row : TaskRow
  pub attempt_id : String
  pub found : find (λ t. t.id == id) w.db.task_instances ≡ some row
  pub not_terminal : is_terminal row.status ≡ false
  pub task : t ≡ scan_task_instance (started_row (row.attempts_total + 1) w.clock row)
  pub attempt : a ≡ scan_task_attempt (new_attempt attempt_id id (row.attempts_total + 1) w.clock)
  pub written :
      db
      ≡ set_task id
          (started_row (row.attempts_total + 1) w.clock)
          (add_attempt (new_attempt attempt_id id (row.attempts_total + 1) w.clock) w.db)

abbrev pub StartedSpec : String → World → Database → Started → Type 0
StartedSpec id w db (already_completed t) = IsSkipped id w db t
StartedSpec id w db (started t a) = IsStarted id w db t a

-- The branch of `StartTaskAttempt` that records an attempt.
start_row : TaskRow → Exec Started
start_row row = do
  attempt ← insert_attempt row.id (row.attempts_total + 1)
  updated ← update_task_started row.id (row.attempts_total + 1)
  pure (started (scan_task_instance updated) (scan_task_attempt attempt))

start_row-ok :
    (id : String) (row : TaskRow) (w w1 v : World) (r : Started)
    → find (λ t. t.id == id) w.db.task_instances ≡ some row
    → is_terminal row.status ≡ false
    → w1 ≡ counted (counted w)
    → start_row row w1 ≡ (ok r, v)
    → StartedSpec id w v.db r
unfolding start_row
start_row-ok id row w w1 v r found alive same h =
    let n = row.attempts_total + 1 in
    let (a, w2, inserted, rest) = >>=-ok (insert_attempt row.id n) _ w1 v r h in
    let (t, w3, updated, last) = >>=-ok (update_task_started row.id n) _ w2 v r rest in
    let (row_a, db2, clock2) = insert_attempt-ok row.id n w1 w2 a inserted in
    let (db3, found3) = update_task_started-ok row.id n w2 w3 t updated in
    let own : row.id ≡ id = find_id id w.db.task_instances row found in
    let clock : w2.clock ≡ w.clock = clock2 ∙ ap (λ x. x.clock) same in
    let final : v ≡ w3 = ground arith in
    let result : r ≡ started (scan_task_instance t) (scan_task_attempt a) = ground arith in
    let new = new_attempt (w1.uuids w1.drawn) id n w.clock in
    let row_a' : a ≡ new =
      row_a
      ∙ ap (λ x. new_attempt (w1.uuids w1.drawn) x n w1.clock) own
      ∙ ap (λ x. new_attempt (w1.uuids w1.drawn) id n x) (ap (λ x. x.clock) same) in
    let db2' : w2.db ≡ add_attempt new w.db =
      db2 ∙ ap (λ x. add_attempt a x.db) same ∙ ap (λ x. add_attempt x w.db) row_a' in
    let db3' : w3.db ≡ set_task id (started_row n w.clock) (add_attempt new w.db) =
      db3
      ∙ ap (λ x. set_task x (started_row n w2.clock) w2.db) own
      ∙ ap (λ x. set_task id (started_row n x) w2.db) clock
      ∙ ap (set_task id (started_row n w.clock)) db2' in
    let read_back : find (λ x. x.id == id) w3.db.task_instances ≡ some t =
      subst (λ z. find (λ x. x.id == z) w3.db.task_instances ≡ some t) own found3 in
    let expected : find (λ x. x.id == id) w3.db.task_instances ≡ some (started_row n w.clock row) =
      ap (λ d. find (λ x. x.id == id) d.task_instances) db3'
      ∙ find-update_where id (started_row n w.clock) w.db.task_instances row (λ x. refl) found in
    let t_row : t ≡ started_row n w.clock row = same_some (sym read_back ∙ expected) in
    subst (StartedSpec id w v.db) (sym result) (record {
      row = row;
      attempt_id = w1.uuids w1.drawn;
      found = found;
      not_terminal = alive;
      task = ap scan_task_instance t_row;
      attempt = ap scan_task_attempt row_a';
      written = ap (λ x. x.db) final ∙ db3';
    })

body-ok :
    (id : String) (w v : World) (r : Started)
    → start_task_attempt_body id (counted w) ≡ (ok r, v)
    → StartedSpec id w v.db r
unfolding start_task_attempt_body scan_task_instance start_row
body-ok id w v r h =
    let (row, w1, selected, rest) = >>=-ok (select_task id) _ (counted w) v r h in
    let (found, same) = select_task-ok id (counted w) w1 row selected in
    elim (Bool-cases (is_terminal row.status)) [
      | inl terminal ↦
          let e = rw terminal at rest in
          let result : r ≡ already_completed (scan_task_instance row) = ground arith in
          subst (StartedSpec id w v.db) (sym result) (record {
            row = row;
            found = found;
            terminal = terminal;
            task = refl;
            unchanged = ground arith;
          })
      | inr alive ↦ start_row-ok id row w w1 v r found alive same (rw alive at rest)
    ]

pub start_task_attempt-ok :
    (id : String) (w w' : World) (r : Started)
    → start_task_attempt id w ≡ (ok r, w')
    → StartedSpec id w w'.db r
unfolding start_task_attempt
start_task_attempt-ok id w w' r h =
    let (v, ran, written) = transaction-ok (start_task_attempt_body id) w w' r h in
    subst (λ d. StartedSpec id w d r) (sym written) (body-ok id w v r ran)

-- Whatever the faults, the database is afterwards the old one or that of a success.
pub start_task_attempt_cases :
    (id : String) (w : World)
    → ((start_task_attempt id w).1.db ≡ w.db)
      ⊎ ((r : Started) × StartedSpec id w (start_task_attempt id w).1.db r)
unfolding start_task_attempt
start_task_attempt_cases id w = elim (transaction_cases (start_task_attempt_body id) w) [
  | inl kept ↦ inl kept
  | inr (r, v, ran, written) ↦
      inr (r, subst (λ d. StartedSpec id w d r) (sym written) (body-ok id w v r ran))
]
