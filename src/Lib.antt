-- ===== src/Lib.antt =====
-- DurableWorkFlowEngine: a workflow engine on PostgreSQL and Redis. A workflow definition is a list of
-- tasks, each with the name of the next one. An execution starts with the entry task; each task is
-- announced by an event of the outbox table, which the publisher adds to a Redis stream; a worker
-- takes the message, calls the task's handler and stores the result, which adds the next task.
--
-- The program's parts and the files that model them:
--   internal/domain/models.go: Domain and the files below it. Domain/Models has the records and
--     statuses, Domain/Documents the JSON values, Domain/Errors Go's errors, Domain/Unmarshal the
--     decoding of the event's payload.
--   migrations/*.sql: Db/Rows, one record for each table.
--   The access to PostgreSQL and Redis: Db and the files below it. Db/Environment has the world of an
--     operation, Db/Exec the statements and transactions, Db/Scan the reading of rows, Db/Preserves
--     the rules by which an invariant passes through an operation.
--   internal/db/store.go: Store/Executions (definitions, executions, listings and the replay),
--     Store/Attempts (StartTaskAttempt to FailTaskAttempt), Store/Outbox (due retries and events),
--     Store/Snapshot, and Store/Sql for what they share.
--   internal/db/idempotency.go: Store/Idempotency.
--   internal/handlers: Handlers, with one function for the two handlers, which differ in their key,
--     their error text and their response.
--   internal/orchestrator/service.go: Workflow (validation and lookups) and Service (the methods).
--   internal/orchestrator/worker.go: Worker.
--   internal/queue/redis_streams.go: Queue, the stream's producer and the consumer of the workers.
--   internal/outbox/publisher.go: Publisher.
--   internal/httpapi: HttpApi, with the routes, the health check and `cors` in HttpApi/Server.
--   internal/config/config.go: Config.
--   internal/db/migrate.go: Db/Migrate.
--   cmd/bench/main.go: Bench, what is read from a snapshot and the summaries, and Bench/Specs, the
--     scenarios.
--   The parts together: System. System/History has the requests to the API, the publisher and the workers as
--     actions on one database and one stream; the other files there say for each part why it forgets
--     no task.
-- Names are those of the source in snake case: `handle_dispatched_task` is `HandleDispatchedTask`.
-- Store/Calls has the histories of calls that the invariants speak of; Prelude has what all share.
--
-- How an operation is modelled: it is a function from a world to a result and a world. The world has
-- the database, the entries of the stream with the acknowledged ids, the clock, the generated ids, and the fate of every round
-- trip: it is executed, or it is refused, or it is executed and the answer is lost. A transaction
-- keeps all writes of its body or none, and its commit may also be executed and reported as failed.
-- Transactions are serial, as the row locks of the code make those on one task. `NOW()` and
-- `time.Now()` give one value during an operation. Loops are over lists, so that no fuel is needed; the
-- endless loop of `Consume` is a list of rounds, each with what Redis answers in it. In System the
-- actions come one after another: a second worker that is handed an entry while the first one is still
-- at it, which needs a handler slower than the reclaim time, is not covered there. The ids of the
-- entries are their numbers in the stream. A process that dies is one whose further round trips are
-- all refused.
--
-- Bounds of the model: ids are texts, and that PostgreSQL rejects a text that is no UUID is not
-- modelled, nor that it rejects a text that is not UTF-8, or one with a zero character in JSON. Rows
-- that are equal by `ORDER BY` come in the order of the table. A JSON object is the list of its
-- fields; JSONB, which drops all but the last field of one name and orders them, stores it as it is.
-- Decoding by `encoding/json` is modelled for the types that the code decodes into; where an object
-- has a field twice the later one counts. `%q` puts a text in quotes and escapes nothing in it. The
-- contexts are never cancelled.
--
-- Not under the repository, and so parameters: the re-encoding of decoded JSON objects and the RFC
-- 3339 format of times (`Library` of Handlers), the handlers of a registry (a list in Worker), what
-- Redis hands out (`Deliveries` of Queue), the environment with the parsers of durations and integers
-- (`Environment` of Config), the rounding of the benchmark's indices, the calls of a migration run (`Calls` of Db/Migrate), and the answers of
-- Prometheus and of `http.ServeMux` itself (`Answers` of HttpApi/Server). A request has the first JSON
-- value of its body and a clean path.
--
-- Not modelled: the connection set-up, telemetry and logs, the programs' start-up and the loop of the
-- publisher's timer, the rest of the benchmark (its averages, HTTP client, timers and output), and the
-- web interface.
pub mod Prelude
pub mod Domain
pub mod Workflow
pub mod Db
pub mod Store
pub mod Handlers
pub mod Worker
pub mod Queue
pub mod Publisher
pub mod Service
pub mod Config
pub mod HttpApi
pub mod Bench
pub mod System
pub mod Tests
