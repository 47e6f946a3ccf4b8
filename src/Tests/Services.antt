-- ===== src/Tests/Services.antt =====
-- The theorems on listings at concrete arguments.
use durable_work_flow_engine.Prelude.{◌≡◌, ◌≤◌, [], ◌∷◌, ◌==◌, filter, pos}
use durable_work_flow_engine.Db.{scan_task_attempt}
use durable_work_flow_engine.Store.Attempts.{new_attempt}
use durable_work_flow_engine.Store.Snapshot.{group_attempts}
use durable_work_flow_engine.Store.Snapshot.Grouping.{group_attempts-filter}
use durable_work_flow_engine.Service.{normalize_dead_letter_task_limit}
use durable_work_flow_engine.Service.Limits.{normalize_dead_letter_task_limit-bounds}
use durable_work_flow_engine.Domain.{TaskAttempt}
use durable_work_flow_engine.Prelude.{List}

abbrev attempts : List TaskAttempt
attempts =
    scan_task_attempt (new_attempt "a1" "t1" 1 900)
    ∷ scan_task_attempt (new_attempt "a2" "t2" 1 910)
    ∷ scan_task_attempt (new_attempt "a3" "t1" 2 920)
    ∷ []

group_attempts-filter_example :
    group_attempts (λ id. []) attempts "t1" ≡ filter (λ a. a.task_instance_id == "t1") attempts
group_attempts-filter_example = group_attempts-filter attempts "t1"

normalize_dead_letter_task_limit-bounds_example :
    (1 ≤ normalize_dead_letter_task_limit (pos 900))
    × (normalize_dead_letter_task_limit (pos 900) ≤ 500)
normalize_dead_letter_task_limit-bounds_example = normalize_dead_letter_task_limit-bounds (pos 900)
