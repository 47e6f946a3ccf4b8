-- ===== src/Service/Limits.antt =====
-- The limit of the dead-letter listing in internal/orchestrator/service.go.
use durable_work_flow_engine.Prelude.{zero, suc, ◌≤◌, arith, ℤ, pos, negsuc}
use durable_work_flow_engine.Service.{normalize_dead_letter_task_limit}

-- Whatever limit is asked for, the one that is used is from 1 to 500.
pub normalize_dead_letter_task_limit-bounds :
    (z : ℤ) → (1 ≤ normalize_dead_letter_task_limit z) × (normalize_dead_letter_task_limit z ≤ 500)
unfolding normalize_dead_letter_task_limit
normalize_dead_letter_task_limit-bounds (negsuc n) = (omega arith, omega arith)
normalize_dead_letter_task_limit-bounds (pos zero) = (omega arith, omega arith)
normalize_dead_letter_task_limit-bounds (pos (suc n)) = (ground arith, ground arith)
