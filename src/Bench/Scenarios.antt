-- ===== src/Bench/Scenarios.antt =====
-- What validation says of the definitions that `buildScenarioSpec` of cmd/bench/main.go writes.
use durable_work_flow_engine.Prelude.{
  ℕ, ◌<◌, ◌≡◌, refl, ◌^◌, arith, true, String, ltb, trim_space, ℤ, pos, [], ◌∷◌,
}
use durable_work_flow_engine.Domain.{document, ok, WorkflowDefinitionSpec, WorkflowTaskSpec}
use durable_work_flow_engine.Workflow.{
  parse_and_validate_workflow_definition, unmarshal_spec, find_task_spec_by_name,
}
use durable_work_flow_engine.Bench.Specs.{
  scenario_spec, Scenario, success_linear, retry_invalid_input, dead_letter_missing_handler,
  replay_missing_handler,
}

-- All but the chain.
pub data IsShort : Scenario → Type 0 where
  linear : IsShort success_linear
  retry : IsShort retry_invalid_input
  dead_letter : IsShort dead_letter_missing_handler
  replay : IsShort replay_missing_handler

module _ (max_attempts backoff_seconds : ℤ) where
  abbrev task_of : String → String → String → WorkflowTaskSpec
  task_of task_name key next = record {
    name = task_name;
    handler_key = key;
    max_attempts = max_attempts;
    backoff_seconds = backoff_seconds;
    next_task = next;
  }

  -- The workflow of a scenario, told without the document.
  abbrev pub workflow_of : {s : Scenario} → IsShort s → WorkflowDefinitionSpec
  workflow_of linear = record {
    entry_task = "validate-order";
    tasks =
        task_of "validate-order" "sample.echo" "send-confirmation"
        ∷ task_of "send-confirmation" "notifications.send" ""
        ∷ [];
  }
  workflow_of retry = record {
    entry_task = "retry-step";
    tasks = task_of "retry-step" "sample.echo" "" ∷ [];
  }
  workflow_of dead_letter = record {
    entry_task = "broken-step";
    tasks = task_of "broken-step" "missing.handler" "" ∷ [];
  }
  workflow_of replay = record {
    entry_task = "broken-step";
    tasks = task_of "broken-step" "missing.handler" "" ∷ [];
  }

is_int64 : (n : ℕ) → n < 2 ^ 63 → ltb n (2 ^ 63) ≡ true
is_int64 n h = ground arith

-- ParseAndValidateWorkflowDefinition accepts what `buildScenarioSpec` writes for each scenario but the
-- chain, and reads it back as the workflow of the scenario, for every two numbers below 2 ^ 63 and any
-- chain length.
pub scenario_spec-accepted :
    (s : Scenario) (max_attempts backoff_seconds chain_length : ℕ) (short : IsShort s)
    → max_attempts < 2 ^ 63
    → backoff_seconds < 2 ^ 63
    → parse_and_validate_workflow_definition (
        document (scenario_spec s (pos max_attempts) (pos backoff_seconds) chain_length).definition)
      ≡ ok (workflow_of (pos max_attempts) (pos backoff_seconds) short)
unfolding scenario_spec parse_and_validate_workflow_definition unmarshal_spec find_task_spec_by_name
    trim_space
scenario_spec-accepted s a b n linear ha hb = rw (is_int64 a ha, is_int64 b hb) refl
scenario_spec-accepted s a b n retry ha hb = rw (is_int64 a ha, is_int64 b hb) refl
scenario_spec-accepted s a b n dead_letter ha hb = rw (is_int64 a ha, is_int64 b hb) refl
scenario_spec-accepted s a b n replay ha hb = rw (is_int64 a ha, is_int64 b hb) refl
