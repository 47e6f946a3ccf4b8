-- ===== src/Workflow/Validity.antt =====
-- What `ParseAndValidateWorkflowDefinition` accepts, and what the engine may rely on afterwards.
use durable_work_flow_engine.Prelude.{
  String, ap, subst, ◌≡◌, refl, ◌⊎◌, inl, inr, ◌↔◌, Bool, true, false, Option, none, some, List, [],
  ◌∷◌, ◌++◌, arith, ◌==◌, eq_iff, eq_false, All, Any, Bool-cases, Option-cases, trim_space, ◌||◌,
  not, ◌&&◌,
}
use durable_work_flow_engine.Domain.{
  WorkflowDefinitionSpec, WorkflowTaskSpec, Result, ok, err, RawMessage, wrap_error, ◌>>=◌,
}
use durable_work_flow_engine.Workflow.{
  find_named, find_task_spec_by_name, find_entry_task, find_next_task_spec, is_blank, check_task,
  check_tasks, validate, has_none, parse_and_validate_workflow_definition, unmarshal_spec,
}
use durable_work_flow_engine.Workflow.Lookup.{
  IsNamed, IsFirst, find_named-IsFirst, find_task_spec_by_name_iff, Any-find_named,
}
use durable_work_flow_engine.Workflow.Rules.{
  Blank, NextTask, IsValidTask, IsValidSpec, Blank-iff, nonneg_iff, not-Blank, ok_check_next,
  check_task-valid,
}

next_listed :
    (w : WorkflowDefinitionSpec) (t : WorkflowTaskSpec)
    → NextTask w t
    → Blank t.next_task ⊎ Any (IsNamed t.next_task) w.tasks
next_listed w t (inl b) = inl b
next_listed w t (inr (differs, listed)) = inr listed

not_self :
    (w : WorkflowDefinitionSpec) (t : WorkflowTaskSpec)
    → NextTask w t
    → not (is_blank t.next_task) && (trim_space t.next_task == trim_space t.name) ≡ false
not_self w t (inl b) = ground (arith, (Blank-iff t.next_task).1 b)
not_self w t (inr (differs, listed)) =
    ground (arith, eq_false (trim_space t.next_task) (trim_space t.name) differs)

valid-check_task :
    (w : WorkflowDefinitionSpec) (t : WorkflowTaskSpec) → IsValidTask w t → check_task w t ≡ ok tt
unfolding check_task
valid-check_task w t v =
    rw
      (
        not-Blank t.name v.name,
        not-Blank t.handler_key v.handler_key,
        (nonneg_iff t.max_attempts).1 v.max_attempts,
        (nonneg_iff t.backoff_seconds).1 v.backoff_seconds,
        not_self w t v.next_task,
      )
      (ok_check_next w t (next_listed w t v.next_task))

check_tasks-valid :
    (w : WorkflowDefinitionSpec) (ts : List WorkflowTaskSpec) (found : Bool)
    → check_tasks w ts found ≡ ok true
    → All (IsValidTask w) ts × ((found ≡ true) ⊎ Any (IsNamed w.entry_task) ts)
unfolding check_tasks
check_tasks-valid w [] found h = (tt, inl (ground arith))
check_tasks-valid w (t ∷ ts) found h =
    let same = trim_space t.name == trim_space w.entry_task in
    let first : check_task w t ≡ ok tt = ground arith in
    let (valid, listed) = check_tasks-valid w ts (found || same) (ground arith) in
    (
      (check_task-valid w t first, valid),
      elim listed [
        | inr a ↦ inr (inr a)
        | inl e ↦ elim (Bool-cases same) [
          | inl s ↦ inr (inl ((eq_iff _ _).0 s))
          | inr s ↦ inl (ground arith)
        ]
      ],
    )

valid-check_tasks :
    (w : WorkflowDefinitionSpec) (ts : List WorkflowTaskSpec) (found : Bool)
    → All (IsValidTask w) ts
    → (found ≡ true) ⊎ Any (IsNamed w.entry_task) ts
    → check_tasks w ts found ≡ ok true
unfolding check_tasks
valid-check_tasks w [] found v (inl e) = ground arith
valid-check_tasks w [] found v (inr e) = absurd e
valid-check_tasks w (t ∷ ts) found v listed =
    let same = trim_space t.name == trim_space w.entry_task in
    rw (valid-check_task w t v.0) (
      valid-check_tasks w ts (found || same) v.1 (elim listed [
        | inl e ↦ inl (ground arith)
        | inr (inl e) ↦
            inl (ground (arith, (eq_iff (trim_space t.name) (trim_space w.entry_task)).1 e))
        | inr (inr a) ↦ inr a
      ]))

has_some : (w : WorkflowDefinitionSpec) → IsValidSpec w → has_none w.tasks ≡ false
has_some w v = go w.tasks v.entry_listed
  where
    go : (ts : List WorkflowTaskSpec) → Any (IsNamed w.entry_task) ts → has_none ts ≡ false
    go [] a = absurd a
    go (t ∷ ts) a = refl

validate-valid : (w w' : WorkflowDefinitionSpec) → validate w ≡ ok w' → (w ≡ w') × IsValidSpec w
unfolding validate
validate-valid w w' h =
    let (valid, listed) = check_tasks-valid w w.tasks false (ground arith) in
    (
      ground arith,
      record {
        entry_task = ground (arith, Blank-iff w.entry_task);
        tasks = valid;
        entry_listed = elim listed [ inl e ↦ cc | inr a ↦ a ];
      },
    )

valid-validate : (w : WorkflowDefinitionSpec) → IsValidSpec w → validate w ≡ ok w
unfolding validate
valid-validate w v = rw (
  not-Blank w.entry_task v.entry_task,
  has_some w v,
  valid-check_tasks w w.tasks false v.tasks (inr v.entry_listed),
)

-- `ParseAndValidateWorkflowDefinition` returns `w` exactly if the bytes decode to `w` and `w` is
-- valid: the entry task and all names and handler keys are not blank, no bound is negative, each
-- `next_task` is blank or names another task of the workflow, and the entry task is in the list.
pub parse_and_validate_iff :
    (raw : RawMessage) (w : WorkflowDefinitionSpec)
    → (parse_and_validate_workflow_definition raw ≡ ok w)
      ↔ ((unmarshal_spec raw ≡ ok w) × IsValidSpec w)
unfolding parse_and_validate_workflow_definition
parse_and_validate_iff raw w = (there (unmarshal_spec raw), λ (e, v). rw e (valid-validate w v))
  where
    there :
        (r : Result WorkflowDefinitionSpec)
        → (wrap_error "unmarshal workflow definition" r >>= validate) ≡ ok w
        → (r ≡ ok w) × IsValidSpec w
    there (err e) h = cc
    there (ok w') h = let (same, v) = validate-valid w' w h in (ap ok same, rw same at v)

All-append_right {ℓ} : {A : Type ℓ} (P : A → Type 0) (xs ys : List A) → All P (xs ++ ys) → All P ys
All-append_right P [] ys h = h
All-append_right P (x ∷ xs) ys h = All-append_right P xs ys h.1

-- A task that is found in a valid workflow is itself valid.
pub found-IsValidTask :
    (w : WorkflowDefinitionSpec) (n : String) (t : WorkflowTaskSpec)
    → IsValidSpec w
    → find_task_spec_by_name w n ≡ ok t
    → IsValidTask w t
found-IsValidTask w n t v h =
    let f = (find_task_spec_by_name_iff w n t).0 h in
    (All-append_right (IsValidTask w) f.before (t ∷ f.after)
      (subst (All (IsValidTask w)) f.split v.tasks)).0

-- In a valid workflow the entry task is found, and it is the first one of its name.
pub find_entry_task-valid :
    (w : WorkflowDefinitionSpec)
    → IsValidSpec w
    → (t : WorkflowTaskSpec) × (find_entry_task w ≡ ok t) × IsFirst w.entry_task w.tasks t
unfolding find_entry_task
find_entry_task-valid w v = elim (Option-cases (find_named w.entry_task w.tasks)) [
  | inl missing ↦ absurd (Any-find_named w.entry_task w.tasks v.entry_listed missing)
  | inr (t, found) ↦ (t, ground arith, find_named-IsFirst w.entry_task w.tasks found)
]

-- What `FindNextTaskSpec` may answer after the task `t`.
abbrev pub IsNextOf : WorkflowDefinitionSpec → WorkflowTaskSpec → Option WorkflowTaskSpec → Type 0
IsNextOf w t none = Blank t.next_task
IsNextOf w t (some u) = (¬ Blank t.next_task) × IsFirst t.next_task w.tasks u

next_of :
    (w : WorkflowDefinitionSpec) (t : WorkflowTaskSpec)
    → NextTask w t
    → ¬ Blank t.next_task
    → (u : WorkflowTaskSpec) × (find_task_spec_by_name w t.next_task ≡ ok u)
unfolding find_task_spec_by_name
next_of w t (inl b) h = absurd (h b)
next_of w t (inr (differs, listed)) h = elim (Option-cases (find_named t.next_task w.tasks)) [
  | inl missing ↦ absurd (Any-find_named t.next_task w.tasks listed missing)
  | inr (u, found) ↦ (u, ground arith)
]

-- In a valid workflow `FindNextTaskSpec` does not fail after a task that exists: it answers that
-- there is no next task exactly where `next_task` is blank, and else the first task of that name.
pub find_next_task_spec-valid :
    (w : WorkflowDefinitionSpec) (n : String) (t : WorkflowTaskSpec)
    → IsValidSpec w
    → find_task_spec_by_name w n ≡ ok t
    → (next : Option WorkflowTaskSpec) × (find_next_task_spec w n ≡ ok next) × IsNextOf w t next
unfolding find_next_task_spec
find_next_task_spec-valid w n t v h = elim (Bool-cases (is_blank t.next_task)) [
  | inl b ↦ (none, ground arith, (Blank-iff t.next_task).0 b)
  | inr b ↦
      let filled : ¬ Blank t.next_task = λ e. cc ((Blank-iff t.next_task).1 e) in
      let (u, found) = next_of w t (found-IsValidTask w n t v h).next_task filled in
      (some u, ground arith, (filled, (find_task_spec_by_name_iff w t.next_task u).0 found))
]
