-- ===== src/Tests/Apis.antt =====
-- The theorems on the API, the configuration and the migrations at concrete values.
use durable_work_flow_engine.Prelude.{
  true, false, atoi, digits_value, String, ◌≡◌, refl, inl, ◌⊎◌, ◌↔◌, List, [], ◌∷◌, pos,
  if◌then◌else◌, ◌==◌, trim_space, some, All,
}
use durable_work_flow_engine.Domain.{ok, err, external, ◌<>◌}
use durable_work_flow_engine.Db.{fine}
use durable_work_flow_engine.Db.Migrate.{
  Schema, Calls, DirEntry, apply_migrations, migration_files, apply_files, apply_file, has_suffix,
}
use durable_work_flow_engine.Db.Migrate.Once.{
  IsRecorded, AllApplied, apply_migrations-IsRecorded, apply_migrations-again,
}
use durable_work_flow_engine.Workflow.{is_blank}
use durable_work_flow_engine.HttpApi.{parse_task_action_path, parse_positive_int_query}
use durable_work_flow_engine.HttpApi.Paths.{parse_task_action_path-path}
use durable_work_flow_engine.HttpApi.Limit.{IsLimit, parse_positive_int_query-IsLimit}
use durable_work_flow_engine.Config.{
  Config, Environment, validate_config, load_config, load_api_config, env_or_default,
  duration_or_default, int64_or_default, problems,
}
use durable_work_flow_engine.Config.Validity.{
  AreGiven, ArePositive, validate_config_iff, load_config-ArePositive, load-AreGiven,
}

parse_task_action_path-path_example :
    parse_task_action_path ("/api/tasks/" <> ("t1" <> ("/" <> "replay"))) ≡ some ("t1", "replay")
unfolding trim_space
parse_task_action_path-path_example =
    parse_task_action_path-path "t1" "replay" (refl, (refl, tt))
      (refl, (refl, (refl, (refl, (refl, (refl, tt)))))) refl refl

limit_is_20 : parse_positive_int_query "20" "limit" ≡ ok (pos 20)
unfolding parse_positive_int_query trim_space atoi digits_value
limit_is_20 = refl

parse_positive_int_query-IsLimit_example :
    ((is_blank "20" ≡ true) × (pos 20 ≡ pos 0)) ⊎ ((is_blank "20" ≡ false) × IsLimit (pos 20))
parse_positive_int_query-IsLimit_example =
    parse_positive_int_query-IsLimit "20" "limit" (pos 20) limit_is_20

abbrev variables : String → String
variables key =
    if key == "DATABASE_URL"
    then "postgres://db"
    else if key == "REDIS_ADDR"
    then "redis:6379"
    else if key == "REDIS_STREAM"
    then "tasks"
    else if key == "REDIS_GROUP"
    then "workers"
    else ""

abbrev env : Environment
env = record {
  getenv = variables;
  parse_duration = λ s. err (external "time: invalid duration");
  scan_int64 = λ s. err (external "expected integer");
  unix_time = "1700000000";
}

abbrev loaded : Config
loaded = record {
  service_name = "durableflow-api";
  http_addr = ":8080";
  database_url = "postgres://db";
  redis_addr = "redis:6379";
  redis_stream = "tasks";
  redis_group = "workers";
  redis_consumer = "api";
  redis_reclaim_min_idle = pos 30000000000;
  redis_reclaim_count = pos 10;
  startup_timeout = pos 30000000000;
  outbox_poll_interval = pos 2000000000;
  otlp_trace_endpoint = "";
}

abbrev unfilled : Config
unfilled = record loaded { service_name = ""; http_addr = ""; redis_consumer = "" }

env_loads : load_config env "api" ≡ ok unfilled
unfolding load_config env_or_default duration_or_default int64_or_default
env_loads = refl

env_is_accepted : load_api_config env ≡ ok loaded
unfolding load_api_config load_config env_or_default duration_or_default int64_or_default
    validate_config problems trim_space
env_is_accepted = refl

validate_config_iff_example :
    (validate_config loaded ≡ ok tt) ↔ (AreGiven loaded × ArePositive loaded)
validate_config_iff_example = validate_config_iff loaded

load_config-ArePositive_example : ArePositive unfilled
load_config-ArePositive_example = load_config-ArePositive env "api" unfilled env_loads

load-AreGiven_example : AreGiven loaded × ArePositive loaded
load-AreGiven_example = load-AreGiven env loaded (inl env_is_accepted)

abbrev entries : List DirEntry
entries =
    record { name = "002_b.sql"; is_dir = false }
    ∷ record { name = "notes.txt"; is_dir = false }
    ∷ record { name = "001_a.sql"; is_dir = false }
    ∷ []

abbrev calls : Calls
calls = record {
  acquire = ok tt;
  lock = ok tt;
  create_table = ok tt;
  read_dir = ok entries;
  look_up = λ f. ok tt;
  read_file = λ f. ok tt;
  begin_tx = λ f. ok tt;
  exec_script = λ f. ok tt;
  insert_version = λ f. ok tt;
  commit = λ f. fine;
}

abbrev no_schema : Schema
no_schema = record { versions = []; scripts = [] }

abbrev both : Schema
both = record {
  versions = "001_a.sql" ∷ "002_b.sql" ∷ [];
  scripts = "001_a.sql" ∷ "002_b.sql" ∷ [];
}

migrated : apply_migrations calls no_schema ≡ (ok tt, both)
unfolding apply_migrations migration_files apply_files apply_file has_suffix
migrated = refl

apply_migrations-IsRecorded_example : IsRecorded (apply_migrations calls no_schema).1
apply_migrations-IsRecorded_example =
    apply_migrations-IsRecorded calls no_schema (record { same = refl; once = tt })

looked_up : All (λ f. calls.look_up f ≡ ok tt) (migration_files entries)
unfolding migration_files has_suffix
looked_up = (refl, (refl, tt))

apply_migrations-again_example :
    AllApplied (migration_files entries) both × (apply_migrations calls both ≡ (ok tt, both))
apply_migrations-again_example =
    apply_migrations-again calls calls entries no_schema both tt refl migrated refl refl refl refl
      looked_up
