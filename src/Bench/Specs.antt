-- ===== src/Bench/Specs.antt =====
-- `buildScenarioSpec` of cmd/bench/main.go: the workflow definitions of the benchmark's scenarios.
use durable_work_flow_engine.Prelude.{
  ℕ, zero, suc, String, Bool, true, false, Option, none, some, List, [], ◌∷◌, if◌then◌else◌, ◌==◌,
  nat_eq, ℤ, pos,
}
use durable_work_flow_engine.Domain.{
  RawMessage, empty, document, Json, num, str, arr, obj, Elems, nil, cons, end, field, integer,
  Result, ok, err, errors_new, ◌<>◌,
}

-- A scenario: its definition, what it is described as, the input and whether it replays.
pub record ScenarioSpec : Type 0 where
  pub definition : Json
  pub description : String
  pub input : RawMessage
  pub replay_after_terminal : Bool

-- `json.Marshal` writes the keys of a map in order.
abbrev pub task_json : String → String → ℤ → ℤ → Option String → Json
task_json name handler_key max_attempts backoff_seconds next = obj (
    field "backoff_seconds" (num (integer backoff_seconds)) (
      field "handler_key" (str handler_key) (
        field "max_attempts" (num (integer max_attempts)) (
          field "name" (str name)
            (elim next [ none ↦ end | some task ↦ field "next_task" (str task) end ])))))

abbrev pub workflow_json : String → Elems → Json
workflow_json entry tasks = obj (field "entry_task" (str entry) (field "tasks" (arr tasks) end))

-- The decimal digits of a number, the last one first.
abbrev pub increment : List ℕ → List ℕ
increment [] = 1 ∷ []
increment (d ∷ ds) = let rest = increment ds in if nat_eq d 9 then 0 ∷ rest else suc d ∷ ds

unfoldable pub digits : ℕ → List ℕ
digits zero = 0 ∷ []
digits (suc n) = increment (digits n)

abbrev pub digit_text : ℕ → String
digit_text d =
    if nat_eq d 0
    then "0"
    else if nat_eq d 1
    then "1"
    else if nat_eq d 2
    then "2"
    else if nat_eq d 3
    then "3"
    else if nat_eq d 4
    then "4"
    else if nat_eq d 5
    then "5"
    else if nat_eq d 6
    then "6"
    else if nat_eq d 7
    then "7"
    else if nat_eq d 8
    then "8"
    else "9"

unfoldable pub digits_text : List ℕ → String
digits_text [] = ""
digits_text (d ∷ ds) = digits_text ds <> digit_text d

-- `%d` of a natural number.
abbrev pub decimal : ℕ → String
decimal n = digits_text (digits n)

abbrev pub step_name : ℕ → String
step_name n = "step-" <> decimal n

-- `odd` is whether the index of the next step is odd, `left` the number of steps that come after it.
unfoldable pub chain_tasks : ℤ → ℤ → ℕ → Bool → ℕ → Elems
chain_tasks max_attempts backoff_seconds zero odd number = nil
chain_tasks max_attempts backoff_seconds (suc left) odd number =
    cons
      (task_json (step_name number) (if odd then "notifications.send" else "sample.echo")
        max_attempts backoff_seconds
        (if nat_eq left 0 then none else some (step_name (suc number))))
      (chain_tasks max_attempts backoff_seconds left (if odd then false else true) (suc number))

abbrev pub single_task : String → String → ℤ → ℤ → Json
single_task name handler_key max_attempts backoff_seconds =
    workflow_json name (cons (task_json name handler_key max_attempts backoff_seconds none) nil)

-- The names of the scenarios.
pub data Scenario : Type 0 where
  success_linear success_deep_chain retry_invalid_input dead_letter_missing_handler : Scenario
  replay_missing_handler : Scenario

-- `Marshal` of these values does not fail.
unfoldable pub scenario_spec : Scenario → ℤ → ℤ → ℕ → ScenarioSpec
scenario_spec success_linear max_attempts backoff_seconds chain_length = record {
  definition = workflow_json "validate-order" (
      cons
        (task_json "validate-order" "sample.echo" max_attempts backoff_seconds
          (some "send-confirmation"))
        (cons (task_json "send-confirmation" "notifications.send" max_attempts backoff_seconds none)
          nil));
  description = "Benchmark workflow for steady-state success latency and throughput.";
  input = empty;
  replay_after_terminal = false;
}
scenario_spec success_deep_chain max_attempts backoff_seconds chain_length = record {
  definition =
      workflow_json "step-1" (chain_tasks max_attempts backoff_seconds chain_length false 1);
  description =
      "Benchmark workflow for "
      <> decimal chain_length
      <> "-step chained execution latency and throughput.";
  input = empty;
  replay_after_terminal = false;
}
scenario_spec retry_invalid_input max_attempts backoff_seconds chain_length = record {
  definition = single_task "retry-step" "sample.echo" max_attempts backoff_seconds;
  description =
      "Benchmark workflow for persisted retries and eventual dead-letter after invalid handler input.";
  input = document (num (integer (pos 123)));
  replay_after_terminal = false;
}
scenario_spec dead_letter_missing_handler max_attempts backoff_seconds chain_length = record {
  definition = single_task "broken-step" "missing.handler" max_attempts backoff_seconds;
  description =
      "Benchmark workflow for immediate terminal dead-letter behavior caused by a missing handler.";
  input = empty;
  replay_after_terminal = false;
}
scenario_spec replay_missing_handler max_attempts backoff_seconds chain_length = record {
  definition = single_task "broken-step" "missing.handler" max_attempts backoff_seconds;
  description =
      "Benchmark workflow for dead-letter replay overhead through the normal dispatch path.";
  input = empty;
  replay_after_terminal = true;
}

abbrev pub scenario_of : String → Option Scenario
scenario_of name =
    if name == "success-linear"
    then some success_linear
    else if name == "success-deep-chain"
    then some success_deep_chain
    else if name == "retry-invalid-input"
    then some retry_invalid_input
    else if name == "dead-letter-missing-handler"
    then some dead_letter_missing_handler
    else if name == "replay-missing-handler"
    then some replay_missing_handler
    else none

-- For a name without characters that `%q` escapes.
abbrev pub spec_of : String → ℤ → ℤ → ℕ → Option Scenario → Result ScenarioSpec
spec_of name max_attempts backoff_seconds chain_length none =
    err (errors_new ("unsupported scenario \"" <> name <> "\""))
spec_of name max_attempts backoff_seconds chain_length (some scenario) =
    ok (scenario_spec scenario max_attempts backoff_seconds chain_length)

unfoldable pub build_scenario_spec : String → ℤ → ℤ → ℕ → Result ScenarioSpec
build_scenario_spec name max_attempts backoff_seconds chain_length =
    spec_of name max_attempts backoff_seconds chain_length (scenario_of name)
