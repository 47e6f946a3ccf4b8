-- ===== src/Workflow/Rules.antt =====
-- The rules of a valid workflow, and the checks of one task against them.
use durable_work_flow_engine.Prelude.{
  String, ◌≡◌, refl, ◌⊎◌, inl, inr, ◌↔◌, true, false, arith, eq_iff, All, Any, Bool-cases,
  trim_space, is_empty, ℤ, pos, negsuc, is_negative,
}
use durable_work_flow_engine.Domain.{WorkflowDefinitionSpec, WorkflowTaskSpec, ok}
use durable_work_flow_engine.Workflow.{find_task_spec_by_name, is_blank, check_next, check_task}
use durable_work_flow_engine.Workflow.Lookup.{IsNamed, find_named-Any, Any-find_named}

-- Nothing is left of the text when the white space at its ends is taken off.
abbrev pub Blank : String → Type 0
Blank s = trim_space s ≡ ""

abbrev pub NonNegative : ℤ → Type 0
NonNegative (pos n) = Unit
NonNegative (negsuc n) = ⊥

-- `next_task` names nothing, or another task of the workflow.
abbrev pub NextTask : WorkflowDefinitionSpec → WorkflowTaskSpec → Type 0
NextTask w t =
    Blank t.next_task
    ⊎ ((¬ (trim_space t.next_task ≡ trim_space t.name)) × Any (IsNamed t.next_task) w.tasks)

pub record IsValidTask (w : WorkflowDefinitionSpec) (t : WorkflowTaskSpec) : Type 0 where
  pub name : ¬ Blank t.name
  pub handler_key : ¬ Blank t.handler_key
  pub max_attempts : NonNegative t.max_attempts
  pub backoff_seconds : NonNegative t.backoff_seconds
  pub next_task : NextTask w t

pub record IsValidSpec (w : WorkflowDefinitionSpec) : Type 0 where
  pub entry_task : ¬ Blank w.entry_task
  pub tasks : All (IsValidTask w) w.tasks
  pub entry_listed : Any (IsNamed w.entry_task) w.tasks

is_empty_iff : (s : String) → (is_empty s ≡ true) ↔ (s ≡ "")
is_empty_iff String.[] = (λ h. refl, λ h. refl)
is_empty_iff (String.◌∷◌ c s) = (λ h. cc, λ h. cc)

pub Blank-iff : (s : String) → (is_blank s ≡ true) ↔ Blank s
Blank-iff s = is_empty_iff (trim_space s)

pub nonneg_iff : (z : ℤ) → (is_negative z ≡ false) ↔ NonNegative z
nonneg_iff (pos n) = (λ h. tt, λ h. refl)
nonneg_iff (negsuc n) = (λ h. cc, λ h. absurd h)

pub check_next_ok :
    (w : WorkflowDefinitionSpec) (t : WorkflowTaskSpec)
    → check_next w t ≡ ok tt
    → Blank t.next_task ⊎ Any (IsNamed t.next_task) w.tasks
unfolding check_next find_task_spec_by_name
check_next_ok w t h = elim (Bool-cases (is_blank t.next_task)) [
  | inl b ↦ inl ((Blank-iff _).0 b)
  | inr b ↦ inr (find_named-Any t.next_task w.tasks (λ e. ground (arith, e)))
]

pub ok_check_next :
    (w : WorkflowDefinitionSpec) (t : WorkflowTaskSpec)
    → Blank t.next_task ⊎ Any (IsNamed t.next_task) w.tasks
    → check_next w t ≡ ok tt
unfolding check_next find_task_spec_by_name
ok_check_next w t (inl b) = ground (arith, (Blank-iff t.next_task).1 b)
ok_check_next w t (inr a) = ground (arith, Any-find_named t.next_task w.tasks a)

pub check_task-valid :
    (w : WorkflowDefinitionSpec) (t : WorkflowTaskSpec) → check_task w t ≡ ok tt → IsValidTask w t
unfolding check_task
check_task-valid w t h = record {
  name = ground (arith, Blank-iff t.name);
  handler_key = ground (arith, Blank-iff t.handler_key);
  max_attempts = (nonneg_iff t.max_attempts).0 (ground arith);
  backoff_seconds = (nonneg_iff t.backoff_seconds).0 (ground arith);
  next_task = elim (check_next_ok w t (ground arith)) [
    | inl b ↦ inl b
    | inr listed ↦ elim (Bool-cases (is_blank t.next_task)) [
      | inl b ↦ inl ((Blank-iff _).0 b)
      | inr b ↦
          inr
            (λ e. ground (arith, (eq_iff (trim_space t.next_task) (trim_space t.name)).1 e), listed)
    ]
  ];
}

pub not-Blank : (s : String) → ¬ Blank s → is_blank s ≡ false
not-Blank s h = elim (Bool-cases (is_blank s)) [
  | inl b ↦ absurd (h ((Blank-iff s).0 b))
  | inr b ↦ b
]
