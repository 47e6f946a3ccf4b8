-- ===== src/Publisher/Round.antt =====
-- A whole round of internal/outbox/publisher.go, from a consistent database.
use durable_work_flow_engine.Prelude.{
  ℕ, ◌≡◌, refl, sym, subst, inl, inr, Bool-cases, List, [], ◌∷◌, any, All, All-append, ◌==◌,
}
use durable_work_flow_engine.Domain.{RawMessage, Result, ok, err, OutboxEvent, DispatchTaskPayload}
use durable_work_flow_engine.Db.{World, Pipe, pipe}
use durable_work_flow_engine.Db.Rows.{Database, TaskRow}
use durable_work_flow_engine.Db.Exec.{continue, ◌>>=◌}
use durable_work_flow_engine.Db.Preserves.{
  Preserves, Preserves-bind, Preserves-pure, Preserves-statement, Preserves-transaction,
}
use durable_work_flow_engine.Store.Sql.{insert_outbox_event}
use durable_work_flow_engine.Store.Outbox.{
  list_pending_outbox, enqueue_each, enqueue_due_task_retries, payload_of,
}
use durable_work_flow_engine.Store.Calls.Closed.{
  read-preserves, update-preserves, enqueue_due_task_retries-preserves,
}
use durable_work_flow_engine.Store.Consistency.{IsConsistent, IsConsistent-closed}
use durable_work_flow_engine.Publisher.{publish_events, publish_once}
use durable_work_flow_engine.Publisher.Stream.{
  list_pending_outbox-KeepsPipe, enqueue_due_task_retries-KeepsPipe,
}
use durable_work_flow_engine.Publisher.Loop.{IsPublishable, publish_events-keeps}
use durable_work_flow_engine.Publisher.Pending.{
  list_pending_outbox-Preserves, list_pending_outbox-IsRead,
}
use durable_work_flow_engine.Publisher.Delivery.{
  IsDelivered, AllDelivered, AllDelivered-IsPublishable,
}

-- An invariant that the event loop and the due retries keep is kept by a round.
module _ {I : Database → Pipe → Type 0} {Sent : Pipe → RawMessage → Type 0}
    (k : IsPublishable I Sent)
    (due : (q : Pipe) (w : World)
      → IsConsistent w.db
      → I w.db q
      → I (enqueue_due_task_retries 20 w).1.db q) where
  abbrev Holds : World → Type 0
  Holds w = I w.db (pipe w)

  -- After the due retries are enqueued and the events are listed.
  listed-Holds :
      (w v : World) (r : Result (List OutboxEvent))
      → IsConsistent w.db
      → list_pending_outbox 20 w ≡ (r, v)
      → Holds v
      → Holds (continue r publish_events v).1
  listed-Holds w v (err e) c ran h = h
  listed-Holds w v (ok events) c ran h =
      publish_events-keeps k events v h (list_pending_outbox-IsRead 20 w v events c ran)

  enqueued-Holds :
      (r : Result ℕ) (w : World)
      → IsConsistent w.db
      → Holds w
      → Holds (continue r (λ n. list_pending_outbox 20 >>= publish_events) w).1
  enqueued-Holds (err e) w c h = h
  enqueued-Holds (ok n) w c h =
      let listed = list_pending_outbox 20 w in
      listed-Holds w listed.1 listed.0 c refl (
        subst (I listed.1.db) (sym ((list_pending_outbox-KeepsPipe 20).same w))
          ((list_pending_outbox-Preserves {P = λ db. I db (pipe w)} 20).at w h))

  pub publish_once-keeps :
      (w : World)
      → IsConsistent w.db
      → I w.db (pipe w)
      → I (publish_once w).1.db (pipe (publish_once w).1)
  unfolding publish_once
  publish_once-keeps w c h =
      let r = enqueue_due_task_retries 20 w in
      enqueued-Holds r.0 r.1 ((enqueue_due_task_retries-preserves IsConsistent-closed 20).at w c) (
        subst (I r.1.db) (sym ((enqueue_due_task_retries-KeepsPipe 20).same w))
          (due (pipe w) w c h))

-- The due retries add events that are not dispatched.
module _ (q : Pipe) where
  abbrev Delivered : Database → Type 0
  Delivered db = AllDelivered db q

  insert-AllDelivered : (p : DispatchTaskPayload) → Preserves Delivered (insert_outbox_event p)
  unfolding insert_outbox_event
  insert-AllDelivered p = Preserves-statement _ record {
    at = λ w d. elim (Bool-cases (any (λ e. e.id == w.uuids w.drawn) w.db.outbox_events)) [
      | inl taken ↦ rw taken d
      | inr fresh ↦ rw fresh (All-append (IsDelivered q.0) w.db.outbox_events _ d (inl refl, tt))
    ];
  }

  enqueue_each-AllDelivered : (items : List TaskRow) → Preserves Delivered (enqueue_each items)
  unfolding enqueue_each
  enqueue_each-AllDelivered [] = Preserves-pure tt
  enqueue_each-AllDelivered (item ∷ items) =
      Preserves-bind _ _ (insert-AllDelivered (payload_of item)) λ u.
        Preserves-bind _ _ (update-preserves _ λ clock db d. d) λ u. enqueue_each-AllDelivered items

  enqueue_due_task_retries-AllDelivered :
      (limit : ℕ) → Preserves Delivered (enqueue_due_task_retries limit)
  unfolding enqueue_due_task_retries
  enqueue_due_task_retries-AllDelivered limit = Preserves-transaction _ (
      Preserves-bind _ _ (read-preserves _)
        λ due. Preserves-bind _ _ (enqueue_each-AllDelivered due) λ u. Preserves-pure _)

-- A round of the publisher keeps this: every event of the outbox that is marked as dispatched has in
-- the stream an entry that decodes to the message of its payload. It holds from every consistent
-- database, with any due retries, and whatever faults the calls to Redis and PostgreSQL meet.
pub publish_once-IsDelivered :
    (w : World)
    → IsConsistent w.db
    → All (IsDelivered w.stream) w.db.outbox_events
    → All (IsDelivered (publish_once w).1.stream) (publish_once w).1.db.outbox_events
publish_once-IsDelivered w c d =
    publish_once-keeps AllDelivered-IsPublishable
      (λ q v consistent h. (enqueue_due_task_retries-AllDelivered q 20).at v h) w c d
