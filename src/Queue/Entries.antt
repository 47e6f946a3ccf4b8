-- ===== src/Queue/Entries.antt =====
-- Entries of the stream of internal/queue/redis_streams.go, written and read back.
use durable_work_flow_engine.Prelude.{ℕ, ◌≡◌, refl}
use durable_work_flow_engine.Domain.{TaskMessage, ok}
use durable_work_flow_engine.Queue.{
  entry_of, marshal_message, unmarshal_message, decode_task_message,
}

-- The entry that `DispatchTask` adds for a message is decoded to this message by the consumer.
pub decode_task_message-entry_of :
    (id : ℕ) (message : TaskMessage) → decode_task_message (entry_of id message) ≡ ok message
unfolding decode_task_message marshal_message unmarshal_message
decode_task_message-entry_of id message = refl
