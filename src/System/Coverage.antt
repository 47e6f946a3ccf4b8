-- ===== src/System/Coverage.antt =====
-- What keeps a task from being forgotten: it has ended, or its next attempt is scheduled, or an event
-- of the outbox or an entry of the stream still has to announce it.
use durable_work_flow_engine.Prelude.{
  ℕ, suc, ◌<◌, String, ◌≡◌, ◌≢◌, refl, ap, sym, subst, ◌∙◌, inl, inr, true, false, Bool-cases, none,
  List, [], ◌∷◌, ◌++◌, arith, length, any, All, Any, All-map, All-append, Any-append, Any-last,
  Distinct, Distinct-append, update_where, nat_eq, ◌==◌, eq_iff,
}
use durable_work_flow_engine.Domain.{
  document, ok, TaskStatus, TaskMessage, StreamEntry, DispatchTaskPayload, unmarshal_payload,
  unmarshal-marshal_payload,
}
use durable_work_flow_engine.Db.{World, Pipe}
use durable_work_flow_engine.Db.Rows.{Database, TaskRow, OutboxRow}
use durable_work_flow_engine.Store.Sql.{set_task, add_event, new_outbox_event}
use durable_work_flow_engine.Store.Attempts.{is_terminal}
use durable_work_flow_engine.Queue.{decode_task_message, entry_of}
use durable_work_flow_engine.Publisher.Loop.{with_entry}

abbrev pub IsOpen : List ℕ → StreamEntry → Type 0
IsOpen acked x = any (nat_eq x.id) acked ≡ false

-- An entry with a message for the task.
abbrev pub IsFor : String → StreamEntry → Type 0
IsFor id x = (m : TaskMessage) × (decode_task_message x ≡ ok m) × (m.task_id ≡ id)

abbrev pub OpenEntry : Pipe → String → Type 0
OpenEntry q id = Any (λ x. IsOpen q.1 x × IsFor id x) q.0

-- An event that is not dispatched and announces the task.
abbrev pub Announces : String → OutboxRow → Type 0
Announces id e =
    (e.dispatched_at ≡ none)
    × ((p : DispatchTaskPayload) × (unmarshal_payload (document e.payload_json) ≡ ok p)
        × (p.task_id ≡ id))

abbrev pub WaitingEvent : List OutboxRow → String → Type 0
WaitingEvent events id = Any (Announces id) events

pub data IsCovered (events : List OutboxRow) (q : Pipe) (t : TaskRow) : Type 0 where
  ended : is_terminal t.status ≡ true → IsCovered events q t
  retrying : t.status ≡ TaskStatus.pending → t.next_run_at ≢ none → IsCovered events q t
  announced : WaitingEvent events t.id → IsCovered events q t
  queued : OpenEntry q t.id → IsCovered events q t

abbrev pub NoneLost : Database → Pipe → Type 0
NoneLost db q = All (IsCovered db.outbox_events q) db.task_instances

-- The tables that decide whether a task is lost.
abbrev pub tables : World → List TaskRow × List OutboxRow
tables w = (w.db.task_instances, w.db.outbox_events)

pub tables-NoneLost :
    (w v : World) (q : Pipe) → tables v ≡ tables w → NoneLost w.db q → NoneLost v.db q
tables-NoneLost w v q same h = subst (λ t. All (IsCovered t.1 q) t.0) (sym same) h

-- The entries of the stream have numbers of their own, below the length, and so have the acknowledged
-- ones.
pub record IsNumberedPipe (q : Pipe) : Type 0 where
  pub below : All (λ x. x.id < length q.0) q.0
  pub distinct : Distinct (λ x y. nat_eq y.id x.id) q.0
  pub acked_below : All (λ i. i < length q.0) q.1

-- More events and entries cover as much.
pub IsCovered-mono :
    (events events' : List OutboxRow) (q q' : Pipe) (t : TaskRow)
    → (WaitingEvent events t.id → IsCovered events' q' t)
    → (OpenEntry q t.id → OpenEntry q' t.id)
    → IsCovered events q t
    → IsCovered events' q' t
IsCovered-mono events events' q q' t f g (ended e) = ended e
IsCovered-mono events events' q q' t f g (retrying p n) = retrying p n
IsCovered-mono events events' q q' t f g (announced a) = f a
IsCovered-mono events events' q q' t f g (queued o) = queued (g o)

pub add_event-NoneLost :
    (row : OutboxRow) (db : Database) (q : Pipe) → NoneLost db q → NoneLost (add_event row db) q
add_event-NoneLost row db q h =
    All-map db.task_instances
      (λ t c.
        IsCovered-mono db.outbox_events (db.outbox_events ++ row ∷ []) q q t
          (λ a. announced (Any-append (Announces t.id) db.outbox_events (row ∷ []) a)) (λ o. o) c)
      h

-- The new event announces its task.
pub add_event-Announces :
    (event_id : String) (p : DispatchTaskPayload) (clock : ℕ) (db : Database)
    → WaitingEvent (add_event (new_outbox_event event_id p clock) db).outbox_events p.task_id
add_event-Announces event_id p clock db =
    Any-last (Announces p.task_id) db.outbox_events (new_outbox_event event_id p clock)
      (refl, (p, unmarshal-marshal_payload p, refl))

-- A task that is announced may change in any way.
pub set_task-NoneLost :
    (id : String) (f : TaskRow → TaskRow) (db : Database) (q : Pipe)
    → ((t : TaskRow) → (f t).id ≡ t.id)
    → ((t : TaskRow) → t.id ≡ id → IsCovered db.outbox_events q t)
    → NoneLost db q
    → NoneLost (set_task id f db) q
set_task-NoneLost id f db q same cover h = go db.task_instances h
  where
    go :
        (ts : List TaskRow)
        → All (IsCovered db.outbox_events q) ts
        → All (IsCovered db.outbox_events q) (update_where (λ t. t.id == id) f ts)
    go [] h = tt
    go (t ∷ ts) h = (
      elim (Bool-cases (t.id == id)) [
        | inl own ↦ rw own (cover (f t) (same t ∙ (eq_iff t.id id).0 own))
        | inr other ↦ rw other h.0
      ],
      go ts h.1,
    )

length-append_one : {A : Type 0} (xs : List A) (x : A) → length (xs ++ x ∷ []) ≡ suc (length xs)
length-append_one [] x = refl
length-append_one (y ∷ xs) x = ap suc (length-append_one xs x)

module _ (n : ℕ) where
  abbrev Below : StreamEntry → Type 0
  Below x = x.id < n

  -- A number that is not used yet.
  pub nat_eq-below : (i : ℕ) → i < n → nat_eq n i ≡ false
  nat_eq-below i h = ground arith

  pub fresh_not_acked : (acked : List ℕ) → All (λ i. i < n) acked → any (nat_eq n) acked ≡ false
  fresh_not_acked [] h = refl
  fresh_not_acked (i ∷ acked) h = rw (nat_eq-below i h.0, fresh_not_acked acked h.1) refl

-- An entry is added with the next number.
pub with_entry-IsNumberedPipe :
    (m : TaskMessage) (q : Pipe) → IsNumberedPipe q → IsNumberedPipe (with_entry m q)
with_entry-IsNumberedPipe m q h =
    let n = length q.0 in
    let longer : length (q.0 ++ entry_of n m ∷ []) ≡ suc n = length-append_one q.0 (entry_of n m) in
    record {
      below =
          subst (λ l. All (λ x. x.id < l) (q.0 ++ entry_of n m ∷ [])) (sym longer)
            (All-append (λ x. x.id < suc n) q.0 _ (All-map q.0 (λ x k. omega arith) h.below)
              (omega arith, tt));
      distinct =
          Distinct-append _ q.0 (entry_of n m) h.distinct
            (All-map q.0 (λ x k. nat_eq-below n x.id k) h.below);
      acked_below =
          subst (λ l. All (λ i. i < l) q.1) (sym longer)
            (All-map q.1 (λ i k. omega arith) h.acked_below);
    }
