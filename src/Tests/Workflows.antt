-- ===== src/Tests/Workflows.antt =====
-- The theorems on workflow definitions at a workflow of two tasks.
use durable_work_flow_engine.Prelude.{◌≡◌, refl, ◌↔◌, Option, trim_space}
use durable_work_flow_engine.Domain.{document, ok, WorkflowTaskSpec}
use durable_work_flow_engine.Workflow.{
  parse_and_validate_workflow_definition, unmarshal_spec, find_task_spec_by_name, find_entry_task,
  find_next_task_spec,
}
use durable_work_flow_engine.Workflow.Lookup.{IsFirst, find_task_spec_by_name_iff}
use durable_work_flow_engine.Workflow.Rules.{IsValidSpec}
use durable_work_flow_engine.Workflow.Validity.{
  IsNextOf, parse_and_validate_iff, find_entry_task-valid, find_next_task_spec-valid,
}
use durable_work_flow_engine.Tests.Data.{two_tasks_json, two_tasks, pick, pack}

parse_and_validate_iff_example :
    (parse_and_validate_workflow_definition (document two_tasks_json) ≡ ok two_tasks)
    ↔ ((unmarshal_spec (document two_tasks_json) ≡ ok two_tasks) × IsValidSpec two_tasks)
parse_and_validate_iff_example = parse_and_validate_iff (document two_tasks_json) two_tasks

two_tasks-accepted : parse_and_validate_workflow_definition (document two_tasks_json) ≡ ok two_tasks
unfolding parse_and_validate_workflow_definition unmarshal_spec find_task_spec_by_name trim_space
two_tasks-accepted = refl

two_tasks-IsValidSpec : IsValidSpec two_tasks
two_tasks-IsValidSpec = (parse_and_validate_iff_example.0 two_tasks-accepted).1

find_task_spec_by_name_iff_example :
    (find_task_spec_by_name two_tasks "pack" ≡ ok pack) ↔ IsFirst "pack" two_tasks.tasks pack
find_task_spec_by_name_iff_example = find_task_spec_by_name_iff two_tasks "pack" pack

find_entry_task-valid_example :
    (t : WorkflowTaskSpec) × (find_entry_task two_tasks ≡ ok t)
    × IsFirst two_tasks.entry_task two_tasks.tasks t
find_entry_task-valid_example = find_entry_task-valid two_tasks two_tasks-IsValidSpec

pick-found : find_task_spec_by_name two_tasks "pick" ≡ ok pick
unfolding find_task_spec_by_name trim_space
pick-found = refl

find_next_task_spec-valid_example :
    (next : Option WorkflowTaskSpec) × (find_next_task_spec two_tasks "pick" ≡ ok next)
    × IsNextOf two_tasks pick next
find_next_task_spec-valid_example =
    find_next_task_spec-valid two_tasks "pick" pick two_tasks-IsValidSpec pick-found
