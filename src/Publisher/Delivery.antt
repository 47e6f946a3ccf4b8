-- ===== src/Publisher/Delivery.antt =====
-- What is marked as dispatched by internal/outbox/publisher.go has its message in the stream.
use durable_work_flow_engine.Prelude.{
  ℕ, ◌≡◌, sym, subst, ◌⊎◌, inl, inr, true, Bool-cases, none, List, [], ◌∷◌, ◌++◌, length, All, Any,
  All-map, All-update_where, update_where, Any-append, Any-last, ◌==◌,
}
use durable_work_flow_engine.Domain.{
  RawMessage, document, ok, OutboxEvent, DispatchTaskPayload, StreamEntry, unmarshal_payload,
}
use durable_work_flow_engine.Db.{Pipe}
use durable_work_flow_engine.Db.Rows.{Database, OutboxRow}
use durable_work_flow_engine.Store.Outbox.{dispatched_event, refused_event}
use durable_work_flow_engine.Queue.{message_of, entry_of, decode_task_message}
use durable_work_flow_engine.Queue.Entries.{decode_task_message-entry_of}
use durable_work_flow_engine.Publisher.Loop.{IsPublishable}

-- The payload of the event decodes to a message that is in the stream.
abbrev pub HasMessage : List StreamEntry → RawMessage → Type 0
HasMessage stream payload =
    (p : DispatchTaskPayload) × (unmarshal_payload payload ≡ ok p)
    × Any (λ x. decode_task_message x ≡ ok (message_of p)) stream

abbrev pub IsDelivered : List StreamEntry → OutboxRow → Type 0
IsDelivered stream row = (row.dispatched_at ≡ none) ⊎ HasMessage stream (document row.payload_json)

abbrev pub AllDelivered : Database → Pipe → Type 0
AllDelivered db q = All (IsDelivered q.0) db.outbox_events

IsDelivered-longer :
    (stream : List StreamEntry) (entry : StreamEntry) (row : OutboxRow)
    → IsDelivered stream row
    → IsDelivered (stream ++ entry ∷ []) row
IsDelivered-longer stream entry row (inl waiting) = inl waiting
IsDelivered-longer stream entry row (inr (p, decoded, sent)) = inr (
  p,
  decoded,
  Any-append (λ x. decode_task_message x ≡ ok (message_of p)) stream (entry ∷ []) sent,
)

marked-IsDelivered :
    (event : OutboxEvent) (clock : ℕ) (stream : List StreamEntry) (rows : List OutboxRow)
    → HasMessage stream event.payload_json
    → All (IsDelivered stream) rows
    → All (λ row. row.id == event.id ≡ true → document row.payload_json ≡ event.payload_json) rows
    → All (IsDelivered stream) (update_where (λ r. r.id == event.id) (dispatched_event clock) rows)
marked-IsDelivered event clock stream [] sent d read = tt
marked-IsDelivered event clock stream (r ∷ rows) sent d read = (
  elim (Bool-cases (r.id == event.id)) [
    | inl own ↦ rw own (inr (subst (HasMessage stream) (sym (read.0 own)) sent))
    | inr other ↦ rw other d.0
  ],
  marked-IsDelivered event clock stream rows sent d.1 read.1,
)

pub AllDelivered-IsPublishable : IsPublishable AllDelivered (λ q. HasMessage q.0)
AllDelivered-IsPublishable = record {
  failed = λ id text db q d.
      All-update_where (λ r. r.id == id) (refused_event text) db.outbox_events (λ r k. k) (λ r k. k)
        d;
  added = λ m db q d. All-map db.outbox_events (IsDelivered-longer q.0 (entry_of (length q.0) m)) d;
  sent = λ p raw db q decoded d. (
    p,
    decoded,
    Any-last (λ x. decode_task_message x ≡ ok (message_of p)) q.0 _
        (decode_task_message-entry_of (length q.0) (message_of p)),
  );
  marked = λ event clock db q d read sent.
      marked-IsDelivered event clock q.0 db.outbox_events sent d read;
}
