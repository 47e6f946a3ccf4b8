-- ===== src/System/Publishing.antt =====
-- The publisher of internal/outbox/publisher.go forgets no task.
use durable_work_flow_engine.Prelude.{
  ℕ, String, ◌≡◌, refl, ap, sym, subst, ◌∙◌, inl, inr, true, Bool-cases, List, [], ◌∷◌, ◌++◌, All,
  All-map, Any, Any-append, Any-last, Any-update_where, update_where, length, ◌==◌,
}
use durable_work_flow_engine.Domain.{
  RawMessage, document, ok, OutboxEvent, DispatchTaskPayload, TaskMessage, unmarshal_payload,
}
use durable_work_flow_engine.Db.{World, Pipe, pipe}
use durable_work_flow_engine.Db.Rows.{Database, OutboxRow, TaskRow}
use durable_work_flow_engine.Db.Exec.{
  Exec, counted, >>=-ok, statement, statement-ok, transaction_cases,
}
use durable_work_flow_engine.Store.Sql.{
  insert_outbox_event, update, add_event, new_outbox_event, set_task,
}
use durable_work_flow_engine.Store.Outbox.{
  set_event, dispatched_event, refused_event, enqueue_each, enqueue_due_task_retries, payload_of,
  unscheduled_task, due_tasks, enqueue_due_task_retries_body,
}
use durable_work_flow_engine.Store.Consistency.{IsConsistent, IsConsistent-closed}
use durable_work_flow_engine.Store.Consistency.Tables.{set_event-IsConsistent}
use durable_work_flow_engine.Store.Calls.Closed.{enqueue_due_task_retries-preserves}
use durable_work_flow_engine.Publisher.{publish_once}
use durable_work_flow_engine.Publisher.Round.{publish_once-keeps}
use durable_work_flow_engine.Store.Attempts.Handover.{insert_outbox_event-ok}
use durable_work_flow_engine.Store.Attempts.Failure.{update-ok}
use durable_work_flow_engine.Queue.{message_of, entry_of}
use durable_work_flow_engine.Queue.Entries.{decode_task_message-entry_of}
use durable_work_flow_engine.Publisher.Loop.{IsRead, IsPublishable, with_entry}
use durable_work_flow_engine.System.Coverage.{
  IsOpen, IsFor, OpenEntry, Announces, WaitingEvent, IsCovered, announced, queued, NoneLost,
  IsNumberedPipe, IsCovered-mono, add_event-NoneLost, add_event-Announces, set_task-NoneLost,
  with_entry-IsNumberedPipe, fresh_not_acked,
}

-- Numbered entries, and no task lost.
abbrev pub IsSafe : Database → Pipe → Type 0
IsSafe db q = IsNumberedPipe q × NoneLost db q

-- The task of the payload has an entry that is not acknowledged.
abbrev IsQueued : Pipe → RawMessage → Type 0
IsQueued q raw = (p : DispatchTaskPayload) × (unmarshal_payload raw ≡ ok p) × OpenEntry q p.task_id

with_entry-NoneLost :
    (m : TaskMessage) (db : Database) (q : Pipe) → NoneLost db q → NoneLost db (with_entry m q)
with_entry-NoneLost m db q h =
    All-map db.task_instances
      (λ t c.
        IsCovered-mono db.outbox_events db.outbox_events q (with_entry m q) t announced
          (λ o. Any-append (λ x. IsOpen q.1 x × IsFor t.id x) q.0 _ o) c)
      h

with_entry-OpenEntry :
    (m : TaskMessage) (q : Pipe) → IsNumberedPipe q → OpenEntry (with_entry m q) m.task_id
with_entry-OpenEntry m q h =
    Any-last (λ x. IsOpen q.1 x × IsFor m.task_id x) q.0 (entry_of (length q.0) m)
      (
        fresh_not_acked (length q.0) q.1 h.acked_below,
        (m, decode_task_message-entry_of (length q.0) m, refl),
      )

refused-NoneLost :
    (id : String) (text : List ℕ) (db : Database) (q : Pipe)
    → NoneLost db q
    → NoneLost (set_event id (refused_event text) db) q
refused-NoneLost id text db q h =
    let f = refused_event text in
    let after = update_where (λ e. e.id == id) f db.outbox_events in
    All-map db.task_instances
      (λ t c.
        IsCovered-mono db.outbox_events after q q t
          (λ a. announced (
            Any-update_where {P = Announces t.id} (λ e. e.id == id) f db.outbox_events (λ e k. k)
              a))
          (λ o. o) c)
      h

same_ok : {A : Type 0} {a b : A} → ok a ≡ ok b → a ≡ b
same_ok e = cc

-- An event that is marked has announced a task that has an entry now.
marked-Announces :
    (event : OutboxEvent) (clock : ℕ) (id : String) (q : Pipe) (rows : List OutboxRow)
    → All (λ row. row.id == event.id ≡ true → document row.payload_json ≡ event.payload_json) rows
    → IsQueued q event.payload_json
    → (all : List OutboxRow)
    → (Any (Announces id) (update_where (λ e. e.id == event.id) (dispatched_event clock) rows)
        → Any (Announces id) all)
    → (t : TaskRow) → t.id ≡ id
    → Any (Announces id) rows
    → IsCovered all q t
marked-Announces event clock id q [] read sent all up t same a = absurd a
marked-Announces event clock id q (r ∷ rows) read sent all up t same (inr a) =
    marked-Announces event clock id q rows read.1 sent all (λ b. up (inr b)) t same a
marked-Announces event clock id q (r ∷ rows) read sent all up t same
      (inl (waiting, (p, decoded, own))) =
    elim (Bool-cases (r.id == event.id)) [
      | inl marked ↦
          let (p', decoded', entry) = sent in
          let agree : p' ≡ p =
            same_ok (sym decoded' ∙ ap unmarshal_payload (sym (read.0 marked)) ∙ decoded) in
          queued (subst (OpenEntry q) (ap (λ x. x.task_id) agree ∙ own ∙ sym same) entry)
      | inr other ↦
          announced
            (subst (WaitingEvent all) (sym same) (up (inl (rw other (waiting, (p, decoded, own))))))
    ]

marked-NoneLost :
    (event : OutboxEvent) (clock : ℕ) (db : Database) (q : Pipe)
    → IsRead db event
    → IsQueued q event.payload_json
    → NoneLost db q
    → NoneLost (set_event event.id (dispatched_event clock) db) q
marked-NoneLost event clock db q read sent h =
    let after = update_where (λ e. e.id == event.id) (dispatched_event clock) db.outbox_events in
    All-map db.task_instances
      (λ t c.
        IsCovered-mono db.outbox_events after q q t
          (λ a.
            marked-Announces event clock t.id q db.outbox_events read sent after (λ b. b) t refl a)
          (λ o. o) c)
      h

pub IsSafe-IsPublishable : IsPublishable IsSafe IsQueued
IsSafe-IsPublishable = record {
  failed = λ id text db q h. (h.0, refused-NoneLost id text db q h.1);
  added = λ m db q h. (with_entry-IsNumberedPipe m q h.0, with_entry-NoneLost m db q h.1);
  sent = λ p raw db q decoded h. (p, decoded, with_entry-OpenEntry (message_of p) q h.0);
  marked = λ event clock db q h read sent. (h.0, marked-NoneLost event clock db q read sent h.1);
}

-- The due retries: each task is announced before its time is taken away.
enqueue_each-NoneLost :
    (items : List TaskRow) (q : Pipe) (w v : World) (u : Unit {0})
    → enqueue_each items w ≡ (ok u, v)
    → NoneLost w.db q
    → NoneLost v.db q
unfolding enqueue_each
enqueue_each-NoneLost [] q w v u ran h = subst (λ x. NoneLost x.1.db q) ran h
enqueue_each-NoneLost (item ∷ items) q w v u ran h =
    let f : ℕ → Database → Database = λ clock. set_task item.id (unscheduled_task clock) in
    let (u1, w1, first, rest1) = >>=-ok (insert_outbox_event (payload_of item)) _ w v u ran in
    let db1 = insert_outbox_event-ok (payload_of item) w w1 u1 first in
    let (u2, w2, second, rest2) = >>=-ok (update f) _ w1 v u rest1 in
    let (db2, clock2) = update-ok f w1 w2 u2 second in
    let event = w.uuids w.drawn in
    let row = new_outbox_event event (payload_of item) w.clock in
    enqueue_each-NoneLost items q w2 v u rest2 (
      subst (λ d. NoneLost d q) (sym (db2 ∙ ap (f w1.clock) db1))
        (set_task-NoneLost item.id (unscheduled_task w1.clock) (add_event row w.db) q (λ t. refl)
          (λ t own. announced (
            subst (WaitingEvent (w.db.outbox_events ++ row ∷ [])) (sym own)
              (add_event-Announces event (payload_of item) w.clock w.db)))
          (add_event-NoneLost row w.db q h)))

enqueue_due_task_retries-IsSafe :
    (limit : ℕ) (q : Pipe) (w : World)
    → IsSafe w.db q
    → IsSafe (enqueue_due_task_retries limit w).1.db q
unfolding enqueue_due_task_retries enqueue_due_task_retries_body
enqueue_due_task_retries-IsSafe limit q w h =
    elim (transaction_cases (enqueue_due_task_retries_body limit) w) [
      | inl kept ↦ subst (λ d. IsSafe d q) (sym kept) h
      | inr (n, v, ran, written) ↦
          let listed : Exec (List TaskRow) =
            statement λ w. (ok (due_tasks limit w.clock w.db), w) in
          let (due, w1, first, rest) = >>=-ok listed _ (counted w) v n ran in
          let same =
            statement-ok (λ w. (ok (due_tasks limit w.clock w.db), w)) (counted w) w1 due first in
          let (u, w2, second, last) = >>=-ok (enqueue_each due) _ w1 v n rest in
          let db1 : w.db ≡ w1.db = ap (λ x. x.1.db) same in
          let db2 : w2.db ≡ v.db = ap (λ x. x.1.db) last in
          subst (λ d. IsSafe d q) (sym written)
            (
              h.0,
              subst (λ d. NoneLost d q) db2
                  (enqueue_each-NoneLost due q w1 w2 u second (subst (λ d. NoneLost d q) db1 h.1)),
            )
    ]

-- A round of the publisher forgets no task, whatever faults it meets.
pub publish_once-IsSafe :
    (w : World)
    → IsConsistent w.db
    → IsSafe w.db (pipe w)
    → IsSafe (publish_once w).1.db (pipe (publish_once w).1)
publish_once-IsSafe w c h =
    publish_once-keeps IsSafe-IsPublishable
      (λ q v consistent i. enqueue_due_task_retries-IsSafe 20 q v i) w c h

-- The rows of the outbox keep their ids.
IsConsistent-IsPublishable : IsPublishable (λ db q. IsConsistent db) (λ q raw. Unit)
IsConsistent-IsPublishable = record {
  failed = λ id text db q c. set_event-IsConsistent db c id (refused_event text) (λ e. refl);
  added = λ m db q c. c;
  sent = λ p raw db q decoded c. tt;
  marked = λ event clock db q c read sent.
      set_event-IsConsistent db c event.id (dispatched_event clock) (λ e. refl);
}

pub publish_once-IsConsistent : (w : World) → IsConsistent w.db → IsConsistent (publish_once w).1.db
publish_once-IsConsistent w c =
    publish_once-keeps IsConsistent-IsPublishable
      (λ q v consistent i. (enqueue_due_task_retries-preserves IsConsistent-closed 20).at v i) w c c
