-- ===== src/System/Settling.antt =====
-- What the calls to internal/db/store.go at the end of a task's handling do for it: it has ended, or
-- its next attempt is scheduled.
use durable_work_flow_engine.Prelude.{
  ℕ, String, ◌≡◌, ◌≢◌, refl, ap, sym, subst, ◌∙◌, ◌⊎◌, inl, inr, true, false, Bool-cases, none,
  some, List, [], ◌∷◌, ◌++◌, arith, All, All-map, All-append, Distinct, update_where, find, any,
  find-any, any-update_where, ◌==◌, eq_iff,
}
use durable_work_flow_engine.Domain.{RawMessage, TaskStatus, TaskInstance, ok}
use durable_work_flow_engine.Db.{World}
use durable_work_flow_engine.Db.Rows.{Database, TaskRow}
use durable_work_flow_engine.Store.Sql.{truncate}
use durable_work_flow_engine.Store.Attempts.{
  is_terminal, already_completed, start_task_attempt, complete_task_attempt,
  complete_task_attempt_and_enqueue_next_task, schedule_task_retry, fail_task_attempt,
  succeeded_task, dead_lettered_task, retried_task,
}
use durable_work_flow_engine.Store.Attempts.Start.{start_task_attempt-ok}
use durable_work_flow_engine.Store.Attempts.Failure.{schedule_task_retry-ok, fail_task_attempt-ok}
use durable_work_flow_engine.Store.Attempts.Success.{complete_task_attempt-ok}
use durable_work_flow_engine.Store.Attempts.Handover.{
  complete_task_attempt_and_enqueue_next_task-ok,
}
use durable_work_flow_engine.Store.Consistency.{IsConsistent}

-- The task has ended, or is pending with a time of the next run.
abbrev pub IsSettled : TaskRow → Type 0
IsSettled t =
    (is_terminal t.status ≡ true) ⊎ ((t.status ≡ TaskStatus.pending) × (t.next_run_at ≢ none))

abbrev pub Settled : Database → String → Type 0
Settled db id = All (λ t. t.id == id ≡ true → IsSettled t) db.task_instances

set_task-Settled :
    (id : String) (f : TaskRow → TaskRow) (ts : List TaskRow)
    → ((t : TaskRow) → IsSettled (f t))
    → All (λ t. t.id == id ≡ true → IsSettled t) (update_where (λ t. t.id == id) f ts)
set_task-Settled id f [] k = tt
set_task-Settled id f (t ∷ ts) k = (
  elim (Bool-cases (t.id == id)) [
    | inl own ↦ rw own (λ same. k t)
    | inr other ↦ rw other (λ same. absurd (ground (arith, other, same)))
  ],
  set_task-Settled id f ts k,
)

pub schedule_task_retry-Settled :
    (id attempt_id : String) (text : List ℕ) (at : ℕ) (w w' : World) (u : Unit {0})
    → schedule_task_retry id attempt_id text at w ≡ (ok u, w')
    → Settled w'.db id
schedule_task_retry-Settled id attempt_id text at w w' u h =
    subst (λ d. Settled d id) (sym (schedule_task_retry-ok id attempt_id text at w w' u h))
      (set_task-Settled id (retried_task (truncate text 1000) at w.clock) w.db.task_instances
        λ t. inr (refl, (λ e. cc)))

pub fail_task_attempt-Settled :
    (id attempt_id : String) (text : List ℕ) (w w' : World) (u : Unit {0})
    → fail_task_attempt id attempt_id text w ≡ (ok u, w')
    → Settled w'.db id
fail_task_attempt-Settled id attempt_id text w w' u h =
    let (row, found, written) = fail_task_attempt-ok id attempt_id text w w' u h in
    subst (λ d. Settled d id) (sym written)
      (set_task-Settled id (dead_lettered_task (truncate text 1000) w.clock) w.db.task_instances
        λ t. inl refl)

pub complete_task_attempt-Settled :
    (id attempt_id : String) (output : RawMessage) (w w' : World) (u : Unit {0})
    → complete_task_attempt id attempt_id output w ≡ (ok u, w')
    → Settled w'.db id
complete_task_attempt-Settled id attempt_id output w w' u h =
    let s = complete_task_attempt-ok id attempt_id output w w' u h in
    subst (λ d. Settled d id) (sym s.written)
      (set_task-Settled id (succeeded_task s.stored w.clock) w.db.task_instances λ t. inl refl)

All-last : {A : Type 0} (P : A → Type 0) (xs : List A) (y : A) → All P (xs ++ y ∷ []) → P y
All-last P [] y h = h.0
All-last P (x ∷ xs) y h = All-last P xs y h.1

-- A row that is added has another id than the rows that are there.
added_id :
    (id : String) (new : TaskRow) (ts : List TaskRow)
    → Distinct (λ s t. t.id == s.id) (ts ++ new ∷ [])
    → any (λ t. t.id == id) ts ≡ true
    → (new.id == id) ≡ false
added_id id new [] d h = cc
added_id id new (t ∷ ts) d h = elim (Bool-cases (t.id == id)) [
  | inl own ↦ ap (λ z. new.id == z) (sym ((eq_iff t.id id).0 own)) ∙ All-last _ ts new d.0
  | inr other ↦ added_id id new ts d.1 (ground (arith, h, other))
]

pub complete_task_attempt_and_enqueue_next_task-Settled :
    (id attempt_id name handler : String) (output : RawMessage) (w w' : World) (u : Unit {0})
    → complete_task_attempt_and_enqueue_next_task id attempt_id name handler output w ≡ (ok u, w')
    → IsConsistent w'.db
    → Settled w'.db id
complete_task_attempt_and_enqueue_next_task-Settled id attempt_id name handler output w w' u h c =
    let s =
      complete_task_attempt_and_enqueue_next_task-ok id attempt_id name handler output w w' u h in
    let f = succeeded_task s.stored w.clock in
    let ts = update_where (λ t. t.id == id) f w.db.task_instances in
    let there : any (λ t. t.id == id) ts ≡ true =
      any-update_where (λ t. t.id == id) (λ t. t.id == id) f w.db.task_instances (λ t. refl)
      ∙ find-any (λ t. t.id == id) w.db.task_instances s.found in
    let consistent = subst IsConsistent s.written c in
    let other = added_id id _ ts consistent.task_ids there in
    subst (λ d. Settled d id) (sym s.written)
      (All-append (λ t. t.id == id ≡ true → IsSettled t) ts _
        (set_task-Settled id f w.db.task_instances λ t. inl refl)
        ((λ same. absurd (ground (arith, other, same))), tt))

-- Where the ids are distinct, a row that is found by its id is the only one.
found_only :
    (id : String) (row : TaskRow) (ts : List TaskRow)
    → Distinct (λ s t. t.id == s.id) ts
    → find (λ t. t.id == id) ts ≡ some row
    → IsSettled row
    → All (λ t. t.id == id ≡ true → IsSettled t) ts
found_only id row [] d h s = tt
found_only id row (t ∷ ts) d h s = elim (Bool-cases (t.id == id)) [
  | inl own ↦
      let row_is : t ≡ row = ground (arith, own, h) in
      let here : t.id ≡ id = (eq_iff t.id id).0 own in
      (
        (λ same. subst IsSettled (sym row_is) s),
        All-map ts
            (λ q other same. absurd (ground (arith, sym other ∙ ap (λ z. q.id == z) here ∙ same)))
            d.0,
      )
  | inr other ↦ (
    (λ same. absurd (ground (arith, other, same))),
    found_only id row ts d.1 (ground (arith, other, h)) s,
  )
]

-- `StartTaskAttempt` skips a task only if it has ended.
pub start_task_attempt-Settled :
    (id : String) (w w' : World) (t : TaskInstance)
    → start_task_attempt id w ≡ (ok (already_completed t), w')
    → IsConsistent w'.db
    → Settled w'.db id
start_task_attempt-Settled id w w' t h c =
    let s = start_task_attempt-ok id w w' (already_completed t) h in
    subst (λ d. Settled d id) (sym s.unchanged)
      (found_only id s.row w.db.task_instances (subst IsConsistent s.unchanged c).task_ids s.found
        (inl s.terminal))
