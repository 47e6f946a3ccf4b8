-- ===== src/Queue.antt =====
-- internal/queue/redis_streams.go: `DispatchTask`, by which the publisher adds to the stream, and the
-- consumer of the workers. The ids of the entries are their numbers in the stream.
mod Messages
unfoldable pub use Messages.*
pub mod Entries
pub mod Options
use durable_work_flow_engine.Prelude.{
  ℕ, zero, suc, ◌*◌, Bool, true, false, Option, none, some, List, [], ◌∷◌, ◌++◌, length, ℤ, pos,
  negsuc, if◌then◌else◌,
}
use durable_work_flow_engine.Domain.{
  RawMessage, document, Json, Error, Result, ok, err, errors_new, wrap, wrap_error, is_redis_nil,
  DispatchTaskPayload, TaskMessage, StreamEntry, marshal_payload, unmarshal_payload,
}
use durable_work_flow_engine.Domain
use durable_work_flow_engine.Db.{World}
use durable_work_flow_engine.Db.Exec.{Exec, pure, raise, statement, ◌>>=◌, ◌>>◌}

-- `queue.TaskMessage` and `domain.DispatchTaskPayload` have the same fields.
abbrev pub message_of : DispatchTaskPayload → TaskMessage
message_of p = record {
  task_id = p.task_id;
  execution_id = p.execution_id;
  handler_key = p.handler_key;
}

unfoldable pub dispatch_task : TaskMessage → Exec (Unit {0})
dispatch_task message =
    statement
      λ w. (ok tt, record w { stream = w.stream ++ entry_of (length w.stream) message ∷ [] })

-- Durations in nanoseconds. `Consumer` only goes into the calls of Redis.
pub record ConsumeOptions : Type 0 where
  pub reclaim_min_idle : ℤ
  pub reclaim_count : ℤ
  pub read_count : ℤ
  pub block : ℤ

abbrev pub or_if_not_positive : ℤ → ℤ → ℤ
or_if_not_positive fallback (pos (suc n)) = pos (suc n)
or_if_not_positive fallback _ = fallback

unfoldable pub normalize_consume_options : ConsumeOptions → ConsumeOptions
normalize_consume_options opts = record {
  reclaim_min_idle = or_if_not_positive (pos 30000000000) opts.reclaim_min_idle;
  reclaim_count = or_if_not_positive (pos 10) opts.reclaim_count;
  read_count = or_if_not_positive (pos 1) opts.read_count;
  block = or_if_not_positive (pos 5000000000) opts.block;
}

-- What Redis hands out: the result of `XAUTOCLAIM`, and of `XREADGROUP` with its streams, as the
-- world is when they are called.
pub record Deliveries : Type 0 where
  pub claim : ConsumeOptions → World → Result (List StreamEntry)
  pub read : ConsumeOptions → World → Result (List (List StreamEntry))

-- `XACK`
unfoldable pub acknowledge : ℕ → Exec (Unit {0})
acknowledge id = statement λ w. (ok tt, record w { acked = id ∷ w.acked })

-- From `handle`: an error leaves the entry pending.
abbrev pub after_delivery : ℕ → Result (Unit {0}) → Exec (Unit {0})
after_delivery id (err e) = pure tt
after_delivery id (ok u) = acknowledge id

abbrev pub deliver : (TaskMessage → Exec (Unit {0})) → ℕ → Result TaskMessage → Exec (Unit {0})
deliver handle id (err e) w = (err e, w)
deliver handle id (ok message) w = let (r, w') = handle message w in after_delivery id r w'

-- One round of the loop over the entries.
unfoldable pub process_message : (TaskMessage → Exec (Unit {0})) → StreamEntry → Exec (Unit {0})
process_message handle entry = deliver handle entry.id (decode_task_message entry)

unfoldable pub process_messages :
    (TaskMessage → Exec (Unit {0})) → List StreamEntry → Exec (Unit {0})
process_messages handle [] = pure tt
process_messages handle (entry ∷ entries) = do
  process_message handle entry
  process_messages handle entries

unfoldable pub process_streams :
    (TaskMessage → Exec (Unit {0})) → List (List StreamEntry) → Exec (Unit {0})
process_streams handle [] = pure tt
process_streams handle (entries ∷ streams) = do
  process_messages handle entries
  process_streams handle streams

-- `claimPending`: `redis.Nil` is no error.
abbrev pub claimed : Result (List StreamEntry) → Result (List StreamEntry)
claimed (ok entries) = ok entries
claimed (err e) = if is_redis_nil e then ok [] else err e

abbrev pub after_read :
    (TaskMessage → Exec (Unit {0})) → Result (List (List StreamEntry)) → Exec (Unit {0})
after_read handle (ok streams) w = process_streams handle streams w
after_read handle (err e) w = if is_redis_nil e then (ok tt, w) else (err e, w)

abbrev pub after_claim :
    (TaskMessage → Exec (Unit {0}))
    → ConsumeOptions
    → Deliveries
    → Result (List StreamEntry)
    → Exec (Unit {0})
after_claim handle opts redis (err e) w = (err e, w)
after_claim handle opts redis (ok (entry ∷ entries)) w = process_messages handle (entry ∷ entries) w
after_claim handle opts redis (ok []) w = after_read handle (redis.read opts w) w

-- One round of the loop of `Consume`.
unfoldable pub consume_once :
    (TaskMessage → Exec (Unit {0})) → ConsumeOptions → Deliveries → Exec (Unit {0})
consume_once handle opts redis w = after_claim handle opts redis (claimed (redis.claim opts w)) w

-- The loop, for as many rounds as there are `rounds`; an error ends it.
unfoldable pub consume_rounds :
    (TaskMessage → Exec (Unit {0})) → ConsumeOptions → List Deliveries → Exec (Unit {0})
consume_rounds handle opts [] = pure tt
consume_rounds handle opts (redis ∷ rounds) = do
  consume_once handle opts redis
  consume_rounds handle opts rounds

-- `created` is what `EnsureGroup` returns.
unfoldable pub consume :
    (TaskMessage → Exec (Unit {0}))
    → ConsumeOptions
    → Result (Unit {0})
    → List Deliveries
    → Exec (Unit {0})
consume handle opts (err e) rounds = raise e
consume handle opts (ok u) rounds = consume_rounds handle (normalize_consume_options opts) rounds
