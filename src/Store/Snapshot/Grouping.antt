-- ===== src/Store/Snapshot/Grouping.antt =====
-- The map `attemptsByTask` of `GetExecutionSnapshot` in internal/db/store.go.
use durable_work_flow_engine.Prelude.{
  String, ◌≡◌, refl, ap, sym, ◌∙◌, Bool-cases, inl, inr, List, [], ◌∷◌, ◌++◌, filter, ◌==◌,
}
use durable_work_flow_engine.Domain.{TaskAttempt}
use durable_work_flow_engine.Store.Snapshot.{AttemptMap, append_attempt, group_attempts}

append_one : (xs ys : List TaskAttempt) (a : TaskAttempt) → (xs ++ a ∷ []) ++ ys ≡ xs ++ a ∷ ys
append_one [] ys a = refl
append_one (x ∷ xs) ys a = ap (λ zs. x ∷ zs) (append_one xs ys a)

append_nil : (xs : List TaskAttempt) → xs ++ [] ≡ xs
append_nil [] = refl
append_nil (x ∷ xs) = ap (λ zs. x ∷ zs) (append_nil xs)

group_attempts-append :
    (m : AttemptMap) (attempts : List TaskAttempt) (id : String)
    → group_attempts m attempts id ≡ m id ++ filter (λ a. a.task_instance_id == id) attempts
unfolding group_attempts
group_attempts-append m [] id = sym (append_nil (m id))
group_attempts-append m (a ∷ attempts) id = elim (Bool-cases (a.task_instance_id == id)) [
  | inl own ↦
      group_attempts-append (append_attempt m a) attempts id
      ∙ rw own (append_one (m id) (filter (λ a. a.task_instance_id == id) attempts) a)
  | inr other ↦ group_attempts-append (append_attempt m a) attempts id ∙ rw other refl
]

-- The map that the loop of `GetExecutionSnapshot` builds gives for each task the attempts of this
-- task, all of them and in the order in which they were read.
pub group_attempts-filter :
    (attempts : List TaskAttempt) (id : String)
    → group_attempts (λ id. []) attempts id ≡ filter (λ a. a.task_instance_id == id) attempts
group_attempts-filter attempts id = group_attempts-append (λ id. []) attempts id
