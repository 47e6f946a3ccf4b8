-- ===== src/Workflow/Lookup.antt =====
-- `FindTaskSpecByName` returns the first task of that name, and fails where there is none.
use durable_work_flow_engine.Prelude.{
  String, ap, ◌≡◌, refl, ◌≢◌, inl, inr, ◌↔◌, none, some, List, [], ◌∷◌, ◌++◌, arith, ◌==◌, eq_iff,
  All, Any, Bool-cases, trim_space,
}
use durable_work_flow_engine.Domain.{WorkflowDefinitionSpec, WorkflowTaskSpec, ok}
use durable_work_flow_engine.Workflow.{find_named, find_task_spec_by_name}

abbrev pub IsNamed : String → WorkflowTaskSpec → Type 0
IsNamed n t = trim_space t.name ≡ trim_space n

-- `t` is the first task of the list with the name `n`, up to white space at the ends.
pub record IsFirst (n : String) (ts : List WorkflowTaskSpec) (t : WorkflowTaskSpec) : Type 0 where
  pub before : List WorkflowTaskSpec
  pub after : List WorkflowTaskSpec
  pub split : ts ≡ before ++ t ∷ after
  pub matches : IsNamed n t
  pub none_before : All (λ s. ¬ IsNamed n s) before

pub find_named-IsFirst :
    (n : String) (ts : List WorkflowTaskSpec) {t : WorkflowTaskSpec}
    → find_named n ts ≡ some t
    → IsFirst n ts t
unfolding find_named
find_named-IsFirst n [] h = cc
find_named-IsFirst n (s ∷ ts) {t} h = elim (Bool-cases (trim_space s.name == trim_space n)) [
  | inl same ↦ record {
    before = [];
    after = ts;
    split = ground arith;
    matches = ground (arith, eq_iff (trim_space s.name) (trim_space n));
    none_before = tt;
  }
  | inr other ↦
      let rest : find_named n ts ≡ some t = ground arith in
      let later = find_named-IsFirst n ts rest in
      record {
        before = s ∷ later.before;
        after = later.after;
        split = ap (λ rest. s ∷ rest) later.split;
        matches = later.matches;
        none_before =
            (ground (arith, eq_iff (trim_space s.name) (trim_space n)), later.none_before);
      }
]

find_named-first :
    (n : String) (before after : List WorkflowTaskSpec) (t : WorkflowTaskSpec)
    → IsNamed n t
    → All (λ s. ¬ IsNamed n s) before
    → find_named n (before ++ t ∷ after) ≡ some t
unfolding find_named
find_named-first n [] after t e h = ground (arith, eq_iff (trim_space t.name) (trim_space n))
find_named-first n (s ∷ before) after t e h =
    ground
      (arith, eq_iff (trim_space s.name) (trim_space n), find_named-first n before after t e h.1)

-- `find_named` finds a task exactly where one has the name.
pub find_named-none :
    (n : String) (ts : List WorkflowTaskSpec) → find_named n ts ≡ none → All (λ s. ¬ IsNamed n s) ts
unfolding find_named
find_named-none n [] h = tt
find_named-none n (s ∷ ts) h =
    (ground (arith, eq_iff (trim_space s.name) (trim_space n)), find_named-none n ts (ground arith))

pub Any-find_named :
    (n : String) (ts : List WorkflowTaskSpec) → Any (IsNamed n) ts → find_named n ts ≢ none
unfolding find_named
Any-find_named n [] h = absurd h
Any-find_named n (s ∷ ts) (inl e) = ground (arith, eq_iff (trim_space s.name) (trim_space n))
Any-find_named n (s ∷ ts) (inr h) = ground (arith, Any-find_named n ts h)

pub find_named-Any :
    (n : String) (ts : List WorkflowTaskSpec) → find_named n ts ≢ none → Any (IsNamed n) ts
unfolding find_named
find_named-Any n [] h = h refl
find_named-Any n (s ∷ ts) h = elim (Bool-cases (trim_space s.name == trim_space n)) [
  | inl same ↦ inl ((eq_iff _ _).0 same)
  | inr other ↦ inr (find_named-Any n ts (ground arith))
]

-- `FindTaskSpecByName` returns a task exactly if it is the first one of that name, where names are
-- compared without the white space at their ends.
pub find_task_spec_by_name_iff :
    (w : WorkflowDefinitionSpec) (n : String) (t : WorkflowTaskSpec)
    → (find_task_spec_by_name w n ≡ ok t) ↔ IsFirst n w.tasks t
unfolding find_task_spec_by_name
find_task_spec_by_name_iff w n t = (
  λ h. find_named-IsFirst n w.tasks (ground arith),
  λ f. rw (f.split, find_named-first n f.before f.after t f.matches f.none_before),
)
