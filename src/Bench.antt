-- ===== src/Bench.antt =====
-- cmd/bench/main.go: what the benchmark reads from a snapshot, and its summaries. The scenarios are in
-- Specs.
pub mod Summaries
pub mod Specs
pub mod Scenarios
use durable_work_flow_engine.Prelude.{
  ℕ, zero, suc, ◌+◌, ◌-◌, String, Bool, true, false, Option, none, some, List, [], ◌∷◌,
  if◌then◌else◌, ◌==◌, nat_eq, leb, length, sort_by, ℤ, pos, negsuc,
}
use durable_work_flow_engine.Domain.{
  RawMessage, empty, document, Json, num, str, arr, obj, Elems, nil, cons, Fields, end, field,
  integer, Error, Result, ok, err, errors_new, ◌<>◌,
}

-- The parts of the API's answer that are read; statuses are texts here.
pub record TaskReport : Type 0 where
  pub id : String
  pub status : String
  pub attempts : List String

unfoldable pub first_dead_lettered_task_id : List TaskReport → Result String
first_dead_lettered_task_id [] = err (errors_new "no dead-lettered task found for replay")
first_dead_lettered_task_id (t ∷ ts) =
    if t.status == "dead_lettered" then ok t.id else first_dead_lettered_task_id ts

unfoldable pub total_attempts : List TaskReport → ℕ
total_attempts [] = 0
total_attempts (t ∷ ts) = length t.attempts + total_attempts ts

abbrev pub is_terminal_status : String → Bool
is_terminal_status s =
    if s == "succeeded" then true else if s == "failed" then true else s == "dead_lettered"

unfoldable pub count_terminal_tasks : List TaskReport → ℕ
count_terminal_tasks [] = 0
count_terminal_tasks (t ∷ ts) =
    let rest = count_terminal_tasks ts in if is_terminal_status t.status then suc rest else rest

-- From the index before it is put into the range.
abbrev pub clamped : ℕ → ℤ → ℕ
clamped length (negsuc n) = 0
clamped length (pos zero) = 0
clamped length (pos (suc index)) = if leb length index then length - 1 else index

-- `ceil percent length` is `int(math.Ceil(quantile * float64(length)))`.
unfoldable pub percentile_index : (ℕ → ℕ → ℤ) → ℕ → ℕ → ℕ
percentile_index ceil length percent =
    if nat_eq length 1 then 0 else clamped length (ceil percent length)

-- Without the average, which is a floating-point number for two of the three.
pub record Summary (A : Type 0) : Type 0 where
  pub count : ℕ
  pub min : A
  pub p50 : A
  pub p95 : A
  pub p99 : A
  pub max : A

-- The zero value for no values, and else a summary or a panic.
pub data Summarized (A : Type 0) : Type 0 where
  no_values : Summarized A
  summarized : Option (Summary A) → Summarized A

module _ {A : Type 0} where
  -- An index out of range is a panic.
  abbrev pub get_elem? : List A → ℕ → Option A
  get_elem? [] i = none
  get_elem? (x ∷ xs) zero = some x
  get_elem? (x ∷ xs) (suc i) = get_elem? xs i

  unfoldable pub percentile : (ℕ → ℕ → ℤ) → List A → ℕ → Option A
  percentile ceil sorted percent = get_elem? sorted (percentile_index ceil (length sorted) percent)

  abbrev pub and_then : {B : Type 0} → Option A → (A → Option B) → Option B
  and_then none f = none
  and_then (some a) f = f a

  -- Of values that are sorted and not empty.
  unfoldable pub summary_of : (ℕ → ℕ → ℤ) → List A → Option (Summary A)
  summary_of ceil sorted = and_then (get_elem? sorted 0) λ min.
      and_then (percentile ceil sorted 50) λ p50. and_then (percentile ceil sorted 95) λ p95.
        and_then (percentile ceil sorted 99) λ p99.
          and_then (get_elem? sorted (length sorted - 1)) λ max. some (record {
            count = length sorted;
            min = min;
            p50 = p50;
            p95 = p95;
            p99 = p99;
            max = max;
          })

  -- `before` is the order of the values.
  unfoldable pub summarize : (ℕ → ℕ → ℤ) → (A → A → Bool) → List A → Summarized A
  summarize ceil before [] = no_values
  summarize ceil before (v ∷ vs) = summarized (summary_of ceil (sort_by before (v ∷ vs)))
