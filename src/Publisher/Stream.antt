-- ===== src/Publisher/Stream.antt =====
-- The operations of the database do nothing to the stream.
use durable_work_flow_engine.Prelude.{ℕ, refl, arith, List, [], ◌∷◌}
use durable_work_flow_engine.Domain.{DispatchTaskPayload}
use durable_work_flow_engine.Db.Rows.{TaskRow, Database}
use durable_work_flow_engine.Db.Stream.{
  KeepsPipe, statement-KeepsPipe, transaction-KeepsPipe, bind-KeepsPipe, read-KeepsPipe,
  pure-KeepsPipe,
}
use durable_work_flow_engine.Store.Sql.{insert_outbox_event, update}
use durable_work_flow_engine.Store.Outbox.{
  enqueue_each, enqueue_due_task_retries, enqueue_due_task_retries_body, payload_of,
  list_pending_outbox,
}

pub insert_outbox_event-KeepsPipe : (p : DispatchTaskPayload) → KeepsPipe (insert_outbox_event p)
unfolding insert_outbox_event
insert_outbox_event-KeepsPipe p = statement-KeepsPipe _ record { same = λ w. ground arith }

pub update-KeepsPipe : (f : ℕ → Database → Database) → KeepsPipe (update f)
unfolding update
update-KeepsPipe f = statement-KeepsPipe _ record { same = λ w. refl }

enqueue_each-KeepsPipe : (items : List TaskRow) → KeepsPipe (enqueue_each items)
unfolding enqueue_each
enqueue_each-KeepsPipe [] = pure-KeepsPipe tt
enqueue_each-KeepsPipe (item ∷ items) =
    bind-KeepsPipe _ _ (insert_outbox_event-KeepsPipe (payload_of item))
      λ u. bind-KeepsPipe _ _ (update-KeepsPipe _) λ u. enqueue_each-KeepsPipe items

pub enqueue_due_task_retries-KeepsPipe : (limit : ℕ) → KeepsPipe (enqueue_due_task_retries limit)
unfolding enqueue_due_task_retries enqueue_due_task_retries_body
enqueue_due_task_retries-KeepsPipe limit = transaction-KeepsPipe _ (
    bind-KeepsPipe _ _ (read-KeepsPipe _)
      λ due. bind-KeepsPipe _ _ (enqueue_each-KeepsPipe due) λ u. pure-KeepsPipe _)

pub list_pending_outbox-KeepsPipe : (limit : ℕ) → KeepsPipe (list_pending_outbox limit)
unfolding list_pending_outbox
list_pending_outbox-KeepsPipe limit = bind-KeepsPipe _ _ (read-KeepsPipe _) λ rows. pure-KeepsPipe _
