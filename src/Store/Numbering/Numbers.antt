-- ===== src/Store/Numbering/Numbers.antt =====
-- The numbers of the attempts of a task in the table of attempts.
use native.Mathlib.Numerals.{add-one}
use durable_work_flow_engine.Prelude.{
  ℕ, zero, suc, ◌+◌, String, ◌≡◌, refl, ap, sym, ◌∙◌, inl, inr, Bool, true, false, List, [], ◌∷◌,
  ◌++◌, arith, All, update_where, ◌==◌, eq_iff, Bool-cases, if◌then◌else◌,
}
use durable_work_flow_engine.Db.Rows.{Database, AttemptRow}
use durable_work_flow_engine.Store.Sql.{has_task}
use durable_work_flow_engine.Store.Consistency.{IsConsistent}
use durable_work_flow_engine.Store.Consistency.Keeps.{KeepsAttempt}

-- The numbers of the attempts of a task, in the order of the table.
abbrev pub numbers_of : String → List AttemptRow → List ℕ
numbers_of id [] = []
numbers_of id (a ∷ rows) =
    let rest = numbers_of id rows in
    if a.task_instance_id == id then a.attempt_number ∷ rest else rest

-- 1, 2, ..., n
abbrev pub upto : ℕ → List ℕ
upto zero = []
upto (suc n) = upto n ++ suc n ∷ []

-- Each task has attempts 1 to `attempts_total`.
pub record IsNumbered (db : Database) : Type 0 where
  pub consistent : IsConsistent db
  pub attempts :
      All (λ t. numbers_of t.id db.task_attempts ≡ upto t.attempts_total) db.task_instances

pub numbers_of-append :
    (id : String) (rows : List AttemptRow) (a : AttemptRow)
    → numbers_of id (rows ++ a ∷ []) ≡ (
        if a.task_instance_id == id
        then numbers_of id rows ++ a.attempt_number ∷ []
        else numbers_of id rows)
numbers_of-append id [] a = ground arith
numbers_of-append id (b ∷ rows) a = ground (arith, numbers_of-append id rows a)

pub numbers_of-update_where :
    (id : String) (q : AttemptRow → Bool) (f : AttemptRow → AttemptRow) (rows : List AttemptRow)
    → KeepsAttempt f
    → numbers_of id (update_where q f rows) ≡ numbers_of id rows
numbers_of-update_where id q f [] k = refl
numbers_of-update_where id q f (a ∷ rows) k =
    ground (arith, k.task a, k.number a, numbers_of-update_where id q f rows k)

-- A task that is not there has no attempts.
pub numbers_of-none :
    (id : String) (db : Database) (rows : List AttemptRow)
    → has_task id db ≡ false
    → All (λ a. has_task a.task_instance_id db ≡ true) rows
    → numbers_of id rows ≡ []
numbers_of-none id db [] fresh all = refl
numbers_of-none id db (a ∷ rows) fresh all = elim (Bool-cases (a.task_instance_id == id)) [
  | inl same ↦
      let e : has_task id db ≡ true =
        ap (λ z. has_task z db) (sym ((eq_iff a.task_instance_id id).0 same)) ∙ all.0 in
      cc
  | inr other ↦ rw other (numbers_of-none id db rows fresh all.1)
]

pub upto-suc : (n : ℕ) → upto (n + 1) ≡ upto n ++ (n + 1) ∷ []
upto-suc n = rw add-one
