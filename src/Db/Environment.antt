-- ===== src/Db/Environment.antt =====
-- What an operation sees and changes: the database, the stream, the clock, and what the environment decides.
use durable_work_flow_engine.Prelude.{ℕ, String, List}
use durable_work_flow_engine.Domain.{Error, StreamEntry}
use durable_work_flow_engine.Db.Rows.{Database}

-- What becomes of one round trip to PostgreSQL or Redis.
pub data Fault : Type 0 where
  -- it is executed, and the answer arrives
  fine : Fault
  -- it is not executed, and the client gets an error
  refused : Error → Fault
  -- it is executed, and the client gets an error in place of the answer
  reply_lost : Error → Fault

-- `stream` is the Redis stream: the entries added to it so far, oldest first; `acked` has the ids of
-- those that the consumers' group has acknowledged.
-- `clock` is the time that `NOW()` and `time.Now()` give during the operation. `uuids` is the run of
-- values that `gen_random_uuid()` gives, of which `drawn` are used up; `faults` is the fate of each
-- round trip, of which `calls` are made.
pub record World : Type 0 where
  pub db : Database
  pub stream : List StreamEntry
  pub acked : List ℕ
  pub clock : ℕ
  pub uuids : ℕ → String
  pub drawn : ℕ
  pub faults : ℕ → Fault
  pub calls : ℕ

-- What Redis keeps: the entries of the stream and the ids that are acknowledged.
abbrev pub Pipe : Type 0
Pipe = List StreamEntry × List ℕ

abbrev pub pipe : World → Pipe
pipe w = (w.stream, w.acked)
