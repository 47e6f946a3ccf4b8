-- ===== src/Publisher/Loop.antt =====
-- What the event loop of internal/outbox/publisher.go keeps: any invariant that its single writes
-- keep, where an event is marked only after its message was sent.
use durable_work_flow_engine.Prelude.{
  ℕ, String, ◌≡◌, refl, ap, sym, subst, ◌∙◌, Bool, true, Bool-cases, inl, inr, bytes, length, List,
  [], ◌∷◌, ◌++◌, All, All-map, All-update_where, ◌==◌,
}
use durable_work_flow_engine.Domain.{
  RawMessage, document, Error, error_text, Result, ok, err, OutboxEvent, DispatchTaskPayload,
  TaskMessage, unmarshal_payload,
}
use durable_work_flow_engine.Db.{World, Fault, fine, refused, reply_lost, Pipe, pipe}
use durable_work_flow_engine.Db.Rows.{Database, OutboxRow}
use durable_work_flow_engine.Db.Exec.{
  Exec, counted, answer, statement, statement-ok, check, change, continue, now, ◌>>=◌, ◌>>◌,
}
use durable_work_flow_engine.Store.Outbox.{
  mark_outbox_dispatched, record_outbox_failure, set_event, count_fits, dispatched_event,
  refused_event,
}
use durable_work_flow_engine.Store.Sql.{truncate, out_of_range}
use durable_work_flow_engine.Queue.{dispatch_task, message_of, entry_of}
use durable_work_flow_engine.Publisher.{
  give_up, after_dispatch, after_decode, publish_event, publish_events,
}

-- The event was read from the row of its id.
abbrev pub IsRead : Database → OutboxEvent → Type 0
IsRead db event =
    All (λ row. row.id == event.id ≡ true → document row.payload_json ≡ event.payload_json)
      db.outbox_events

-- The stream with an entry more.
abbrev pub with_entry : TaskMessage → Pipe → Pipe
with_entry m q = (q.0 ++ entry_of (length q.0) m ∷ [], q.1)

-- The invariant `I` of the database and the stream is kept by each write; `Sent q raw` is what an
-- event with the payload `raw` needs for being marked.
pub record IsPublishable (I : Database → Pipe → Type 0) (Sent : Pipe → RawMessage → Type 0)
    : Type 0 where
  pub failed :
      (id : String) (text : List ℕ) (db : Database) (q : Pipe)
      → I db q
      → I (set_event id (refused_event text) db) q
  pub added : (m : TaskMessage) (db : Database) (q : Pipe) → I db q → I db (with_entry m q)
  pub sent :
      (p : DispatchTaskPayload) (raw : RawMessage) (db : Database) (q : Pipe)
      → unmarshal_payload raw ≡ ok p
      → I db q
      → Sent (with_entry (message_of p) q) raw
  pub marked :
      (event : OutboxEvent) (clock : ℕ) (db : Database) (q : Pipe)
      → I db q
      → IsRead db event
      → Sent q event.payload_json
      → I (set_event event.id (dispatched_event clock) db) q

-- A change of the row of an event that keeps its payload.
set_event-IsRead :
    (id : String) (f : OutboxRow → OutboxRow) (db : Database) (events : List OutboxEvent)
    → ((r : OutboxRow) → (f r).id ≡ r.id)
    → ((r : OutboxRow) → (f r).payload_json ≡ r.payload_json)
    → All (IsRead db) events
    → All (IsRead (set_event id f db)) events
set_event-IsRead id f db events same_id same_payload h =
    All-map events
      (λ event read.
        All-update_where _ f db.outbox_events (λ r k. k)
          (λ r k own.
            ap (λ j. document j) (same_payload r)
            ∙ k (ap (λ z. z == event.id) (sym (same_id r)) ∙ own))
          read)
      h

module _ {I : Database → Pipe → Type 0} {Sent : Pipe → RawMessage → Type 0}
    (k : IsPublishable I Sent) where
  abbrev Accounts : List OutboxEvent → World → Type 0
  Accounts events w = I w.db (pipe w) × All (IsRead w.db) events

  statement-Accounts :
      (events : List OutboxEvent) {A : Type 0} (s : Exec A) (w : World)
      → Accounts events w
      → Accounts events (s (counted w)).1
      → Accounts events (statement s w).1
  unfolding statement
  statement-Accounts events s w h after = go (w.faults w.calls)
    where
      go : (f : Fault) → Accounts events (answer f (counted w) (s (counted w))).1
      go fine = after
      go (refused e) = h
      go (reply_lost e) = after

  check-Accounts :
      (events : List OutboxEvent) (holds : World → Bool) (e : Error) (m : Exec (Unit {0}))
      (w : World)
      → Accounts events w
      → Accounts events (m w).1
      → Accounts events ((check holds e >> m) w).1
  check-Accounts events holds e m w h after = elim (Bool-cases (holds w)) [
    | inl pass ↦ rw pass after
    | inr stop ↦ rw stop h
  ]

  give_up-Accounts :
      (events : List OutboxEvent) (id : String) (e : Error) (w : World)
      → Accounts events w
      → Accounts events (give_up id e w).1
  unfolding record_outbox_failure
  give_up-Accounts events id e w h =
      let text = truncate (bytes (error_text e)) 1000 in
      let f = refused_event text in
      statement-Accounts events (check (count_fits id) out_of_range >> change (set_event id f)) w h
        (check-Accounts events (count_fits id) out_of_range (change (set_event id f)) (counted w) h
          (
            k.failed id text w.db (pipe w) h.0,
            set_event-IsRead id f w.db events (λ r. refl) (λ r. refl) h.1,
          ))

  -- `MarkOutboxDispatched` after the message was added.
  mark-Accounts :
      (events : List OutboxEvent) (event : OutboxEvent) (w : World)
      → Accounts (event ∷ events) w
      → Sent (pipe w) event.payload_json
      → Accounts events (mark_outbox_dispatched event.id w).1
  unfolding mark_outbox_dispatched
  mark-Accounts events event w h sent =
      let m : Exec (Unit {0}) =
        now >>= λ clock. change (set_event event.id (dispatched_event clock)) in
      statement-Accounts events (check (count_fits event.id) out_of_range >> m) w (h.0, h.1.1)
        (check-Accounts events (count_fits event.id) out_of_range m (counted w) (h.0, h.1.1)
          (
            k.marked event w.clock w.db (pipe w) h.0 h.1.0 sent,
            set_event-IsRead event.id (dispatched_event w.clock) w.db events (λ r. refl) (λ r. refl)
                h.1.1,
          ))

  dispatch-Accounts :
      (events : List OutboxEvent) (m : TaskMessage) (w : World)
      → Accounts events w
      → Accounts events (dispatch_task m w).1
  unfolding dispatch_task
  dispatch-Accounts events m w h =
      statement-Accounts events
        (λ v. (ok tt, record v { stream = v.stream ++ entry_of (length v.stream) m ∷ [] })) w h
        (k.added m w.db (pipe w) h.0, h.1)

  dispatch-Sent :
      (p : DispatchTaskPayload) (raw : RawMessage) (w w' : World) (u : Unit {0})
      → unmarshal_payload raw ≡ ok p
      → I w.db (pipe w)
      → dispatch_task (message_of p) w ≡ (ok u, w')
      → Sent (pipe w') raw
  unfolding dispatch_task
  dispatch-Sent p raw w w' u decoded h ran =
      let m = message_of p in
      let done =
        statement-ok
          (λ v. (ok tt, record v { stream = v.stream ++ entry_of (length v.stream) m ∷ [] })) w w' u
          ran in
      subst (λ q. Sent q raw) (ap (λ x. pipe x.1) done) (k.sent p raw w.db (pipe w) decoded h)

  after_dispatch-Accounts :
      (events : List OutboxEvent) (event : OutboxEvent) (p : DispatchTaskPayload) (w v : World)
      (r : Result (Unit {0}))
      → unmarshal_payload event.payload_json ≡ ok p
      → I w.db (pipe w)
      → dispatch_task (message_of p) w ≡ (r, v)
      → Accounts (event ∷ events) v
      → Accounts events (after_dispatch event.id r v).1
  after_dispatch-Accounts events event p w v (err e) decoded i ran h =
      give_up-Accounts events event.id e v (h.0, h.1.1)
  after_dispatch-Accounts events event p w v (ok u) decoded i ran h =
      mark-Accounts events event v h (dispatch-Sent p event.payload_json w v u decoded i ran)

  after_decode-Accounts :
      (events : List OutboxEvent) (event : OutboxEvent) (r : Result DispatchTaskPayload) (w : World)
      → unmarshal_payload event.payload_json ≡ r
      → Accounts (event ∷ events) w
      → Accounts events (after_decode event.id r w).1
  after_decode-Accounts events event (err e) w decoded h =
      give_up-Accounts events event.id e w (h.0, h.1.1)
  after_decode-Accounts events event (ok p) w decoded h =
      let sent = dispatch_task (message_of p) w in
      after_dispatch-Accounts events event p w sent.1 sent.0 decoded h.0 refl
        (dispatch-Accounts (event ∷ events) (message_of p) w h)

  publish_event-Accounts :
      (events : List OutboxEvent) (event : OutboxEvent) (w : World)
      → Accounts (event ∷ events) w
      → Accounts events (publish_event event w).1
  unfolding publish_event
  publish_event-Accounts events event w h =
      after_decode-Accounts events event (unmarshal_payload event.payload_json) w refl h

  -- The loop keeps the invariant, where each event of the batch was read from the row of its id.
  pub publish_events-keeps :
      (events : List OutboxEvent) (w : World)
      → I w.db (pipe w)
      → All (IsRead w.db) events
      → I (publish_events events w).1.db (pipe (publish_events events w).1)
  unfolding publish_events
  publish_events-keeps [] w i read = i
  publish_events-keeps (event ∷ events) w i read =
      go (publish_event event w) (publish_event-Accounts events event w (i, read))
        λ v a b. publish_events-keeps events v a b
    where
      go :
          (r : Result (Unit {0}) × World)
          → Accounts events r.1
          → ((v : World)
              → I v.db (pipe v)
              → All (IsRead v.db) events
              → I (publish_events events v).1.db (pipe (publish_events events v).1))
          → I
              (continue r.0 (λ u. publish_events events) r.1).1.db
              (pipe (continue r.0 (λ u. publish_events events) r.1).1)
      go (err e, v) h rest = h.0
      go (ok u, v) h rest = rest v h.0 h.1
