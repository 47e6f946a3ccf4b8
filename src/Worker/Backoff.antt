-- ===== src/Worker/Backoff.antt =====
-- The time of the next attempt in internal/orchestrator/worker.go.
use durable_work_flow_engine.Prelude.{ℕ, ◌+◌, ◌*◌, ◌≤◌, ◌≡◌, arith, pos, mul64, bits64, signed64}
use durable_work_flow_engine.Worker.{next_run_at}

-- A backoff of up to 9223372036 seconds, which is 292 years, puts the next attempt that many seconds
-- after the clock: the product in nanoseconds does not overflow an `int64`.
pub next_run_at-exact :
    (clock seconds : ℕ)
    → seconds ≤ 9223372036
    → next_run_at clock (pos seconds) ≡ clock + seconds * 1000000000
unfolding next_run_at mul64 bits64 signed64
next_run_at-exact clock seconds h = ground arith
