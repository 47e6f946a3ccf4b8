-- ===== src/Workflow.antt =====
-- The workflow definitions of internal/orchestrator/service.go: reading one from JSON, validating it
-- and finding its tasks. The proofs are in the modules below.
mod Decode
pub mod Lookup
pub mod Rules
pub mod Validity
unfoldable pub use Decode.*
use durable_work_flow_engine.Prelude.{
  String, Bool, true, false, not, ◌&&◌, ◌||◌, Option, none, some, List, [], ◌∷◌, if◌then◌else◌,
  ◌==◌, trim_space, is_empty, is_negative,
}
use durable_work_flow_engine.Domain.{
  WorkflowDefinitionSpec, WorkflowTaskSpec, RawMessage, Result, ok, err, errors_new, ◌>>=◌, ◌>>◌,
  reject_if, wrap_error, ◌<>◌,
}

abbrev pub is_blank : String → Bool
is_blank s = is_empty (trim_space s)

-- The loop of `FindTaskSpecByName` and of `FindEntryTask`.
pub find_named : String → List WorkflowTaskSpec → Option WorkflowTaskSpec
find_named name [] = none
find_named name (t ∷ ts) =
    if trim_space t.name == trim_space name then some t else find_named name ts

found_or {ℓ} : {A : Type ℓ} → Result A → Option A → Result A
found_or missing none = missing
found_or missing (some a) = ok a

unfoldable pub find_entry_task : WorkflowDefinitionSpec → Result WorkflowTaskSpec
unfolding found_or find_named
find_entry_task w =
    found_or
      (err (errors_new "entry_task must be one of the tasks defined in the workflow definition"))
      (find_named w.entry_task w.tasks)

unfoldable pub find_task_spec_by_name : WorkflowDefinitionSpec → String → Result WorkflowTaskSpec
unfolding found_or find_named
find_task_spec_by_name w name =
    found_or (err (errors_new ("task not found in workflow definition: " <> name)))
      (find_named name w.tasks)

-- `none` stands for the result `false`.
unfoldable pub find_next_task_spec :
    WorkflowDefinitionSpec → String → Result (Option WorkflowTaskSpec)
find_next_task_spec w current = do
  t ← wrap_error "failed to find current task" (find_task_spec_by_name w current)
  if is_blank t.next_task then ok none else do
    next ← wrap_error "invalid next_task reference" (find_task_spec_by_name w t.next_task)
    ok (some next)

-- The check of a task's `next_task`.
pub check_next : WorkflowDefinitionSpec → WorkflowTaskSpec → Result (Unit {0})
check_next w t = if is_blank t.next_task then ok tt else do
  target ←
      wrap_error "workflow definition tasks have invalid next_task"
        (find_task_spec_by_name w t.next_task)
  ok tt

-- One round of the loop, but for `entryTaskFound`.
pub check_task : WorkflowDefinitionSpec → WorkflowTaskSpec → Result (Unit {0})
unfolding check_next
check_task w t = do
  reject_if (is_blank t.name) (errors_new "workflow definition tasks must have a name")
  reject_if (is_blank t.handler_key)
      (errors_new "workflow definition tasks must have a handler_key")
  reject_if (is_negative t.max_attempts)
      (errors_new "workflow definition tasks must have max_attempts of at least 0")
  reject_if (is_negative t.backoff_seconds)
      (errors_new "workflow definition tasks must have backoff_seconds of at least 0")
  reject_if (not (is_blank t.next_task) && (trim_space t.next_task == trim_space t.name))
      (errors_new "workflow definition tasks cannot have next_task that points to itself")
  check_next w t

-- The loop: the result is the last value of `entryTaskFound`.
check_tasks : WorkflowDefinitionSpec → List WorkflowTaskSpec → Bool → Result Bool
check_tasks w [] found = ok found
check_tasks w (t ∷ ts) found = do
  check_task w t
  check_tasks w ts (found || (trim_space t.name == trim_space w.entry_task))

abbrev has_none : List WorkflowTaskSpec → Bool
has_none [] = true
has_none (t ∷ ts) = false

unfoldable pub validate : WorkflowDefinitionSpec → Result WorkflowDefinitionSpec
unfolding check_tasks check_task
validate w = do
  reject_if (is_blank w.entry_task) (errors_new "workflow definition must have an entry_task")
  reject_if (has_none w.tasks) (errors_new "workflow definition must have at least one task")
  found ← check_tasks w w.tasks false
  reject_if (not found)
      (errors_new "entry_task must be one of the tasks defined in the workflow definition")
  ok w

unfoldable pub parse_and_validate_workflow_definition : RawMessage → Result WorkflowDefinitionSpec
unfolding validate
parse_and_validate_workflow_definition raw = do
  w ← wrap_error "unmarshal workflow definition" (unmarshal_spec raw)
  validate w
