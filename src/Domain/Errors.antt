-- ===== src/Domain/Errors.antt =====
-- Go's `error` values as far as the code tells them apart, and results with an error.
use Prim.Native.String
use durable_work_flow_engine.Prelude.{String, Bool, true, false, ◌==◌}

pub data Error : Type 0 where
  -- `pgx.ErrNoRows`
  no_rows : Error
  -- `*pgconn.PgError`: its code and its message
  pg_error : String → String → Error
  -- `redis.Nil`
  redis_nil : Error
  -- any other failure of a driver or of a library, with its text
  external : String → Error
  -- `errTaskNotReplayable`
  task_not_replayable : Error
  -- `errIdempotencyKeyInProgress`
  idempotency_key_in_progress : Error
  -- `errors.New(text)`
  errors_new : String → Error
  -- `fmt.Errorf("text: %w", err)`
  wrap : String → Error → Error

pub data Result {ℓ} (A : Type ℓ) : Type ℓ where
  ok : A → Result A
  err : Error → Result A

-- `if b { return err }`
abbrev pub reject_if : Bool → Error → Result (Unit {0})
reject_if true e = err e
reject_if false e = ok tt

-- `fmt.Errorf("text: %w", err)` on the error path.
abbrev pub wrap_error {ℓ} : {A : Type ℓ} → String → Result A → Result A
wrap_error text (ok a) = ok a
wrap_error text (err e) = err (wrap text e)

infixl 5 ◌>>=◌ ◌>>◌
-- `a, err := m; if err != nil { return err }`, and then `next` with the value.
abbrev pub ◌>>=◌ {ℓ κ} : {A : Type ℓ} {B : Type κ} → Result A → (A → Result B) → Result B
err e >>= next = err e
ok value >>= next = next value

abbrev pub ◌>>◌ {ℓ} : {B : Type ℓ} → Result (Unit {0}) → Result B → Result B
ok u >> rest = rest
err e >> rest = err e

infixl 60 ◌<>◌
abbrev pub ◌<>◌ : String → String → String
◌<>◌ = String.◌++◌

-- `err.Error()`
unfoldable pub error_text : Error → String
error_text no_rows = "no rows in result set"
error_text (pg_error code text) = "ERROR: " <> text <> " (SQLSTATE " <> code <> ")"
error_text redis_nil = "redis: nil"
error_text (external text) = text
error_text task_not_replayable = "task is not dead-lettered"
error_text idempotency_key_in_progress = "idempotency key is already in progress"
error_text (errors_new text) = text
error_text (wrap text e) = text <> ": " <> error_text e

-- `errors.Is(err, pgx.ErrNoRows)`, through every `%w`.
unfoldable pub is_not_found : Error → Bool
is_not_found no_rows = true
is_not_found (wrap text e) = is_not_found e
is_not_found _ = false

-- `errors.As(err, &pgErr) && pgErr.Code == "23505"`
unfoldable pub is_unique_violation : Error → Bool
is_unique_violation (pg_error code text) = code == "23505"
is_unique_violation (wrap text e) = is_unique_violation e
is_unique_violation _ = false

-- `errors.Is(err, errTaskNotReplayable)`
unfoldable pub is_task_not_replayable : Error → Bool
is_task_not_replayable task_not_replayable = true
is_task_not_replayable (wrap text e) = is_task_not_replayable e
is_task_not_replayable _ = false

-- `errors.Is(err, errIdempotencyKeyInProgress)`
unfoldable pub is_idempotency_key_in_progress : Error → Bool
is_idempotency_key_in_progress idempotency_key_in_progress = true
is_idempotency_key_in_progress (wrap text e) = is_idempotency_key_in_progress e
is_idempotency_key_in_progress _ = false

-- `errors.Is(err, redis.Nil)`
unfoldable pub is_redis_nil : Error → Bool
is_redis_nil redis_nil = true
is_redis_nil (wrap text e) = is_redis_nil e
is_redis_nil _ = false
