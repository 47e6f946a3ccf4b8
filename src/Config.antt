-- ===== src/Config.antt =====
-- internal/config/config.go: the configuration of the programs, from the environment.
pub mod Validity
use Prim.Native.String
use durable_work_flow_engine.Prelude.{
  ℕ, zero, suc, String, Bool, true, false, not, Option, none, some, List, [], ◌∷◌, ◌++◌,
  if◌then◌else◌, ◌==◌, ℤ, pos, negsuc, is_empty,
}
use durable_work_flow_engine.Domain.{Error, Result, ok, err, errors_new, wrap, ◌<>◌, ◌>>=◌}
use durable_work_flow_engine.Workflow.{is_blank}

-- Durations in nanoseconds.
pub record Config : Type 0 where
  pub service_name : String
  pub http_addr : String
  pub database_url : String
  pub redis_addr : String
  pub redis_stream : String
  pub redis_group : String
  pub redis_consumer : String
  pub redis_reclaim_min_idle : ℤ
  pub redis_reclaim_count : ℤ
  pub startup_timeout : ℤ
  pub outbox_poll_interval : ℤ
  pub otlp_trace_endpoint : String

-- What the program meets: `os.Getenv`, `time.ParseDuration`, `fmt.Sscan` into an `int64`, and the
-- decimal text of `time.Now().Unix()`.
pub record Environment : Type 0 where
  pub getenv : String → String
  pub parse_duration : String → Result ℤ
  pub scan_int64 : String → Result ℤ
  pub unix_time : String

abbrev pub or_if_empty : String → String → String
or_if_empty fallback value = if is_empty value then fallback else value

abbrev pub positive_or_error : String → ℤ → Result ℤ
positive_or_error key (pos (suc n)) = ok (pos (suc n))
positive_or_error key _ = err (errors_new (key <> " must be greater than 0"))

-- What `durationOrDefault` and `int64OrDefault` do with the result of the parser.
abbrev pub parsed_positive : String → String → Result ℤ → Result ℤ
parsed_positive key kind (err e) = err (wrap (key <> " must be a valid " <> kind) e)
parsed_positive key kind (ok value) = positive_or_error key value

abbrev pub is_positive : ℤ → Bool
is_positive (pos (suc n)) = true
is_positive _ = false

module _ (env : Environment) where
  unfoldable pub env_or_default : String → String → String
  env_or_default key fallback = or_if_empty fallback (env.getenv key)

  unfoldable pub duration_or_default : String → ℤ → Result ℤ
  duration_or_default key fallback =
      if is_empty (env.getenv key)
      then ok fallback
      else parsed_positive key "duration" (env.parse_duration (env.getenv key))

  unfoldable pub int64_or_default : String → ℤ → Result ℤ
  int64_or_default key fallback =
      if is_empty (env.getenv key)
      then ok fallback
      else parsed_positive key "integer" (env.scan_int64 (env.getenv key))

  abbrev pub http_addr_key : String → String
  http_addr_key kind = if kind == "worker" then "WORKER_HTTP_ADDR" else "API_HTTP_ADDR"

  unfoldable pub load_config : String → Result Config
  load_config kind = do
    redis_reclaim_min_idle ← duration_or_default "REDIS_RECLAIM_MIN_IDLE" (pos 30000000000)
    redis_reclaim_count ← int64_or_default "REDIS_RECLAIM_COUNT" (pos 10)
    startup_timeout ← duration_or_default "STARTUP_TIMEOUT" (pos 30000000000)
    outbox_poll_interval ← duration_or_default "OUTBOX_POLL_INTERVAL" (pos 2000000000)
    ok (record {
      service_name = env_or_default "SERVICE_NAME" "";
      http_addr = env_or_default (http_addr_key kind) "";
      database_url = env_or_default "DATABASE_URL" "";
      redis_addr = env_or_default "REDIS_ADDR" "";
      redis_stream = env_or_default "REDIS_STREAM" "";
      redis_group = env_or_default "REDIS_GROUP" "";
      redis_consumer = env_or_default "REDIS_CONSUMER" "";
      redis_reclaim_min_idle = redis_reclaim_min_idle;
      redis_reclaim_count = redis_reclaim_count;
      startup_timeout = startup_timeout;
      outbox_poll_interval = outbox_poll_interval;
      otlp_trace_endpoint = env.getenv "OTEL_EXPORTER_OTLP_ENDPOINT";
    })

-- `if problem { problems = append(problems, text) }`
abbrev pub problem_if : Bool → String → List String
problem_if true text = text ∷ []
problem_if false text = []

unfoldable pub problems : Config → List String
problems c =
    problem_if (is_blank c.service_name) "SERVICE_NAME must not be empty"
    ++ problem_if (is_blank c.http_addr) "HTTP listen address must not be empty"
    ++ problem_if (is_blank c.database_url) "DATABASE_URL must not be empty"
    ++ problem_if (is_blank c.redis_addr) "REDIS_ADDR must not be empty"
    ++ problem_if (is_blank c.redis_stream) "REDIS_STREAM must not be empty"
    ++ problem_if (is_blank c.redis_group) "REDIS_GROUP must not be empty"
    ++ problem_if (is_blank c.redis_consumer) "REDIS_CONSUMER must not be empty"
    ++ problem_if (not (is_positive c.redis_reclaim_min_idle))
        "REDIS_RECLAIM_MIN_IDLE must be greater than 0"
    ++ problem_if (not (is_positive c.redis_reclaim_count))
        "REDIS_RECLAIM_COUNT must be greater than 0"
    ++ problem_if (not (is_positive c.startup_timeout)) "STARTUP_TIMEOUT must be greater than 0"
    ++ problem_if (not (is_positive c.outbox_poll_interval))
        "OUTBOX_POLL_INTERVAL must be greater than 0"

-- `strings.Join`
unfoldable pub join : String → List String → String
join separator [] = ""
join separator (s ∷ []) = s
join separator (s ∷ t ∷ ss) = s <> separator <> join separator (t ∷ ss)

abbrev pub reported : List String → Result (Unit {0})
reported [] = ok tt
reported (p ∷ ps) = err (errors_new (join "; " (p ∷ ps)))

unfoldable pub validate_config : Config → Result (Unit {0})
validate_config c = reported (problems c)

abbrev pub with_defaults : String → String → String → Config → Config
with_defaults service_name http_addr redis_consumer c = record c {
  service_name = or_if_empty service_name c.service_name;
  http_addr = or_if_empty http_addr c.http_addr;
  redis_consumer = or_if_empty redis_consumer c.redis_consumer;
}

-- The configuration beside an error is left out: the programs exit.
abbrev pub validated : Config → Result Config
validated c = do u ← validate_config c; ok c

module _ (env : Environment) where
  unfoldable pub load_api_config : Result Config
  load_api_config = do
    c ← load_config env "api"
    validated (with_defaults "durableflow-api" ":8080" "api" c)

  unfoldable pub load_worker_config : Result Config
  load_worker_config = do
    c ← load_config env "worker"
    validated (with_defaults "durableflow-worker" ":8081" ("worker-" <> env.unix_time) c)
