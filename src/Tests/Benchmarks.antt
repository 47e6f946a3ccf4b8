-- ===== src/Tests/Benchmarks.antt =====
-- The theorems on the benchmark at three durations and at the scenario of two tasks, and tests.
use durable_work_flow_engine.Prelude.{
  ℕ, ◌≡◌, refl, arith, List, [], ◌∷◌, some, leb, ℤ, pos, if◌then◌else◌,
}
use durable_work_flow_engine.Domain.{document, ok, err, errors_new}
use durable_work_flow_engine.Workflow.{parse_and_validate_workflow_definition}
use durable_work_flow_engine.Bench.{
  Summary, summarized, summarize, TaskReport, first_dead_lettered_task_id, total_attempts,
  count_terminal_tasks,
}
use durable_work_flow_engine.Bench.Specs.{
  scenario_spec, success_linear, build_scenario_spec, digits_text, digits, step_name,
}
use durable_work_flow_engine.Bench.Summaries.{IsOrder, IsBetween, summarize-IsBetween}
use durable_work_flow_engine.Bench.Scenarios.{linear, workflow_of, scenario_spec-accepted}

leb-IsOrder : IsOrder leb
leb-IsOrder = record {
  refl_before = λ a. ground arith;
  total = λ a b h. ground arith;
  trans = λ a b c h h'. ground arith;
}

-- `int(math.Ceil(quantile * float64(length)))` for 3 values and the quantiles in use is 2 or 3.
abbrev ceil_of_three : ℕ → ℕ → ℤ
ceil_of_three percent n = if leb percent 66 then pos 2 else pos 3

summarize-IsBetween_example :
    (s : Summary ℕ) × (summarize ceil_of_three leb (30 ∷ 10 ∷ 20 ∷ []) ≡ summarized (some s))
    × (s.count ≡ 3)
    × IsBetween leb s
summarize-IsBetween_example = summarize-IsBetween leb leb-IsOrder ceil_of_three 30 (10 ∷ 20 ∷ [])

scenario_spec-accepted_example :
    parse_and_validate_workflow_definition
      (document (scenario_spec success_linear (pos 3) (pos 1) 4).definition)
    ≡ ok (workflow_of (pos 3) (pos 1) linear)
scenario_spec-accepted_example =
    scenario_spec-accepted success_linear 3 1 4 linear (omega arith) (omega arith)

abbrev two_reports : List TaskReport
two_reports =
    record { id = "a"; status = "succeeded"; attempts = "1" ∷ [] }
    ∷ record { id = "b"; status = "dead_lettered"; attempts = "2" ∷ "3" ∷ [] }
    ∷ []

dead_task : first_dead_lettered_task_id two_reports ≡ ok "b"
unfolding first_dead_lettered_task_id
dead_task = refl

attempts : total_attempts two_reports ≡ 3
unfolding total_attempts
attempts = refl

terminal : count_terminal_tasks two_reports ≡ 2
unfolding count_terminal_tasks
terminal = refl

unsupported :
    build_scenario_spec "other" (pos 3) (pos 1) 4
    ≡ err (errors_new "unsupported scenario \"other\"")
unfolding build_scenario_spec
unsupported = refl

step_twelve : step_name 12 ≡ "step-12"
unfolding digits_text digits
step_twelve = refl
