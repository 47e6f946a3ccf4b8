-- ===== src/Publisher/Liveness.antt =====
-- Without faults the event loop of internal/outbox/publisher.go delivers every event of its batch.
use durable_work_flow_engine.Prelude.{
  ℕ, suc, ◌+◌, ◌≤◌, ◌<◌, String, ◌≡◌, ◌≢◌, refl, ap, sym, subst, inl, inr, true, false, not, ◌&&◌,
  Bool-cases, none, List, [], ◌∷◌, ◌++◌, arith, length, any, leb, All, All-update_where, Any,
  Any-append, Any-last, update_where, ◌==◌,
}
use durable_work_flow_engine.Domain.{
  Result, ok, OutboxEvent, DispatchTaskPayload, unmarshal_payload,
}
use durable_work_flow_engine.Db.{World, fine}
use durable_work_flow_engine.Db.Rows.{Database, OutboxRow}
use durable_work_flow_engine.Db.Exec.{continue, statement}
use durable_work_flow_engine.Store.Sql.{integer_max}
use durable_work_flow_engine.Store.Outbox.{
  set_event, dispatched_event, count_fits, mark_outbox_dispatched,
}
use durable_work_flow_engine.Queue.{dispatch_task, message_of, entry_of, decode_task_message}
use durable_work_flow_engine.Queue.Entries.{decode_task_message-entry_of}
use durable_work_flow_engine.Publisher.{publish_event, publish_events}

-- Every round trip is executed and answered.
abbrev pub NoFaults : World → Type 0
NoFaults w = (n : ℕ) → w.faults n ≡ fine

-- `attempt_count` can still be raised `n` times.
abbrev pub HasRoom : ℕ → Database → Type 0
HasRoom n db = All (λ row. row.attempt_count + n ≤ integer_max) db.outbox_events

abbrev pub Decodes : OutboxEvent → Type 0
Decodes event = (p : DispatchTaskPayload) × (unmarshal_payload event.payload_json ≡ ok p)

-- The rows of the event are marked, and the stream has an entry with its message.
abbrev pub IsPublished : OutboxEvent → World → Type 0
IsPublished event w =
    All (λ row. row.id == event.id ≡ true → row.dispatched_at ≢ none) w.db.outbox_events
    × ((p : DispatchTaskPayload) × (unmarshal_payload event.payload_json ≡ ok p)
        × Any (λ x. decode_task_message x ≡ ok (message_of p)) w.stream)

-- The world after an event is published.
abbrev published_world : OutboxEvent → DispatchTaskPayload → World → World
published_world event p w = record w {
  db = set_event event.id (dispatched_event w.clock) w.db;
  stream = w.stream ++ entry_of (length w.stream) (message_of p) ∷ [];
  calls = w.calls + 1 + 1;
}

leb-false : (a b : ℕ) → b < a → leb a b ≡ false
leb-false a b h = ground arith

room-fits :
    (id : String) (n : ℕ) (rows : List OutboxRow)
    → All (λ row. row.attempt_count + suc n ≤ integer_max) rows
    → any (λ e. (e.id == id) && leb integer_max e.attempt_count) rows ≡ false
room-fits id n [] h = refl
room-fits id n (r ∷ rows) h =
    let small : leb integer_max r.attempt_count ≡ false =
      leb-false integer_max r.attempt_count (omega arith) in
    let rest = room-fits id n rows h.1 in
    elim (Bool-cases (r.id == id)) [
      | inl own ↦ rw (own, small, rest) refl
      | inr other ↦ rw (other, rest) refl
    ]

publish_event-world :
    (event : OutboxEvent) (p : DispatchTaskPayload) (w : World)
    → NoFaults w
    → unmarshal_payload event.payload_json ≡ ok p
    → count_fits event.id w ≡ true
    → publish_event event w ≡ (ok tt, published_world event p w)
unfolding publish_event dispatch_task mark_outbox_dispatched statement
publish_event-world event p w k decoded fits = rw (decoded, k w.calls, k (w.calls + 1), fits) refl

HasRoom-marked :
    (id : String) (clock n : ℕ) (db : Database)
    → HasRoom (suc n) db
    → HasRoom n (set_event id (dispatched_event clock) db)
HasRoom-marked id clock n db h =
    All-update_where (λ e. e.id == id) (dispatched_event clock) db.outbox_events
      (λ r k. omega arith) (λ r k. omega arith) h

marked-rows :
    (id : String) (clock : ℕ) (rows : List OutboxRow)
    → All
        (λ row. row.id == id ≡ true → row.dispatched_at ≢ none)
        (update_where (λ e. e.id == id) (dispatched_event clock) rows)
marked-rows id clock [] = tt
marked-rows id clock (r ∷ rows) = (
  elim (Bool-cases (r.id == id)) [
    | inl own ↦ rw own (λ same e. cc)
    | inr other ↦ rw other (λ same. absurd (ground (arith, other, same)))
  ],
  marked-rows id clock rows,
)

published_world-IsPublished :
    (event : OutboxEvent) (p : DispatchTaskPayload) (w : World)
    → unmarshal_payload event.payload_json ≡ ok p
    → IsPublished event (published_world event p w)
published_world-IsPublished event p w decoded = (
  marked-rows event.id w.clock w.db.outbox_events,
  (
    p,
    decoded,
    Any-last (λ x. decode_task_message x ≡ ok (message_of p)) w.stream _
        (decode_task_message-entry_of (length w.stream) (message_of p)),
  ),
)

-- What is published stays so.
published_world-keeps :
    (event other : OutboxEvent) (p : DispatchTaskPayload) (w : World)
    → IsPublished other w
    → IsPublished other (published_world event p w)
published_world-keeps event other p w h =
    let (marked, (q, decoded, sent)) = h in
    (
      All-update_where (λ e. e.id == event.id) (dispatched_event w.clock) w.db.outbox_events
          (λ r k. k) (λ r k same e. cc) marked,
      (q, decoded, Any-append (λ x. decode_task_message x ≡ ok (message_of q)) w.stream _ sent),
    )

-- The loop ends with success, has published the batch, and leaves published what was.
record IsDone (events : List OutboxEvent) (w : World) (done : Result (Unit {0}) × World)
    : Type 0 where
  succeeds : done.0 ≡ ok tt
  published : All (λ e. IsPublished e done.1) events
  kept : (e : OutboxEvent) → IsPublished e w → IsPublished e done.1

publish_events-IsDone :
    (events : List OutboxEvent) (w : World)
    → NoFaults w
    → All Decodes events
    → HasRoom (length events) w.db
    → IsDone events w (publish_events events w)
unfolding publish_events
publish_events-IsDone [] w k decode room = record {
  succeeds = refl;
  published = tt;
  kept = λ e h. h;
}
publish_events-IsDone (event ∷ events) w k decode room =
    let (p, decoded) = decode.0 in
    let v = published_world event p w in
    let fits : count_fits event.id w ≡ true =
      ap not (room-fits event.id (length events) w.db.outbox_events room) in
    let first = publish_event-world event p w k decoded fits in
    let rest =
      publish_events-IsDone events v k decode.1
        (HasRoom-marked event.id w.clock (length events) w.db room) in
    subst (λ r. IsDone (event ∷ events) w (continue r.0 (λ u. publish_events events) r.1))
      (sym first)
      (record {
        succeeds = rest.succeeds;
        published =
            (rest.kept event (published_world-IsPublished event p w decoded), rest.published);
        kept = λ e h. rest.kept e (published_world-keeps event e p w h);
      })

-- Without faults the loop over a batch of events ends with success, every event of the batch is then
-- marked as dispatched, and the stream has an entry that decodes to its message: for events with
-- payloads that decode, and rows whose attempt counts leave room for the batch.
pub publish_events-IsPublished :
    (events : List OutboxEvent) (w : World)
    → NoFaults w
    → All Decodes events
    → HasRoom (length events) w.db
    → ((publish_events events w).0 ≡ ok tt)
      × All (λ e. IsPublished e (publish_events events w).1) events
publish_events-IsPublished events w k decode room =
    let done = publish_events-IsDone events w k decode room in (done.succeeds, done.published)
