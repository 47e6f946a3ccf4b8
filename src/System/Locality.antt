-- ===== src/System/Locality.antt =====
-- The two handlers of internal/handlers do their work outside of the engine's own tables.
use durable_work_flow_engine.Prelude.{
  ℕ, String, ◌≡◌, refl, ◌∙◌, Bool, true, false, none, some, Option, arith, if◌then◌else◌,
}
use durable_work_flow_engine.Domain.{RawMessage, document, Json, Result, ok, err, TaskInstance}
use durable_work_flow_engine.Db.{World, pipe, Fault, fine, refused, reply_lost}
use durable_work_flow_engine.Db.Rows.{IdempotencyRow}
use durable_work_flow_engine.Db.Exec.{Exec, lift, statement, counted, answer, continue, ◌>>=◌}
use durable_work_flow_engine.Store.Sql.{normalize_json}
use durable_work_flow_engine.Store.Idempotency.{
  Begun, replayed, proceed, begin_idempotent_task, complete_idempotent_task,
  release_idempotent_task, try_insert_record, insert_where_absent, select_record, update_record,
  find_record,
}
use durable_work_flow_engine.Store.Calls.{after_call, begin_key, complete_key, release_key}
use durable_work_flow_engine.Store.Calls.Closed.{after_call-closed}
use durable_work_flow_engine.Store.Consistency.{IsConsistent-closed}
use durable_work_flow_engine.Handlers.{
  Library, after_complete, decode_input, process_input, after_begin, handle_idempotently,
  sample_echo_handler, notification_send_handler,
}
use durable_work_flow_engine.System.Coverage.{tables}
use durable_work_flow_engine.System.Handling.{Stays, IsLocal}

-- Nothing that the tasks, the outbox or the stream consist of is touched.
record IsAside {A : Type 0} (m : Exec A) : Type 0 where
  piped : (w : World) → pipe (m w).1 ≡ pipe w
  same_tables : (w : World) → tables (m w).1 ≡ tables w

module _ {A : Type 0} where
  statement-IsAside : (s : Exec A) → IsAside s → IsAside (statement s)
  unfolding statement
  statement-IsAside s k = record {
    piped = λ w. pipes w (w.faults w.calls);
    same_tables = λ w. kept w (w.faults w.calls);
  }
    where
      pipes : (w : World) (f : Fault) → pipe (answer f (counted w) (s (counted w))).1 ≡ pipe w
      pipes w fine = k.piped (counted w)
      pipes w (refused e) = refl
      pipes w (reply_lost e) = k.piped (counted w)

      kept : (w : World) (f : Fault) → tables (answer f (counted w) (s (counted w))).1 ≡ tables w
      kept w fine = k.same_tables (counted w)
      kept w (refused e) = refl
      kept w (reply_lost e) = k.same_tables (counted w)

  lift-IsAside : (r : Result A) → IsAside (lift r)
  lift-IsAside r = record { piped = λ w. refl; same_tables = λ w. refl }

  if-IsAside : (b : Bool) (m n : Exec A) → IsAside m → IsAside n → IsAside (if b then m else n)
  if-IsAside true m n k l = k
  if-IsAside false m n k l = l

bind-IsAside :
    {A B : Type 0} (m : Exec A) (f : A → Exec B)
    → IsAside m
    → ((a : A) → IsAside (f a))
    → IsAside (m >>= f)
bind-IsAside {A} {B} m f k l = record {
  piped = λ w. let r = m w in pipes r.0 r.1 ∙ k.piped w;
  same_tables = λ w. let r = m w in kept r.0 r.1 ∙ k.same_tables w;
}
  where
    pipes : (r : Result A) (v : World) → pipe (continue r f v).1 ≡ pipe v
    pipes (ok a) v = (l a).piped v
    pipes (err e) v = refl

    kept : (r : Result A) (v : World) → tables (continue r f v).1 ≡ tables v
    kept (ok a) v = (l a).same_tables v
    kept (err e) v = refl

insert_where_absent-IsAside :
    (found : Option IdempotencyRow) (h key owner : String)
    → IsAside (insert_where_absent found h key owner)
unfolding insert_where_absent
insert_where_absent-IsAside (some row) h key owner = record {
  piped = λ w. refl;
  same_tables = λ w. refl;
}
insert_where_absent-IsAside none h key owner = record {
  piped = λ w. ground arith;
  same_tables = λ w. ground arith;
}

begin_idempotent_task-IsAside : (h key owner : String) → IsAside (begin_idempotent_task h key owner)
unfolding begin_idempotent_task try_insert_record select_record
begin_idempotent_task-IsAside h key owner =
    bind-IsAside _ _
      (statement-IsAside _ record {
        piped = λ w. (insert_where_absent-IsAside (find_record h key w.db) h key owner).piped w;
        same_tables =
            λ w. (insert_where_absent-IsAside (find_record h key w.db) h key owner).same_tables w;
      })
      λ inserted.
        if-IsAside inserted _ _ (record { piped = λ w. refl; same_tables = λ w. refl })
          (bind-IsAside _ _
            (statement-IsAside _ record { piped = λ w. refl; same_tables = λ w. refl })
            λ row. lift-IsAside _)

update_record-IsAside :
    (h key owner : String) (response : RawMessage) → IsAside (update_record h key owner response)
unfolding update_record
update_record-IsAside h key owner response =
    statement-IsAside _ record { piped = λ w. ground arith; same_tables = λ w. ground arith }

complete_idempotent_task-IsAside :
    (h key owner : String) (response : RawMessage)
    → IsAside (complete_idempotent_task h key owner response)
unfolding complete_idempotent_task
complete_idempotent_task-IsAside h key owner response =
    bind-IsAside _ _ (update_record-IsAside h key owner (normalize_json response)) λ affected.
      if-IsAside affected _ _ (record { piped = λ w. refl; same_tables = λ w. refl })
        (record { piped = λ w. refl; same_tables = λ w. refl })

release_idempotent_task-IsAside :
    (h key owner : String) → IsAside (release_idempotent_task h key owner)
unfolding release_idempotent_task
release_idempotent_task-IsAside h key owner =
    statement-IsAside _ record { piped = λ w. refl; same_tables = λ w. refl }

Stays-trans : (u v w : World) → Stays u v → Stays v w → Stays u w
Stays-trans u v w k l = record {
  consistent = λ c. l.consistent (k.consistent c);
  piped = l.piped ∙ k.piped;
  same_tables = l.same_tables ∙ k.same_tables;
}

Stays-refl : (w : World) → Stays w w
Stays-refl w = record { consistent = λ c. c; piped = refl; same_tables = refl }

begin-Stays : (h key owner : String) (w : World) → Stays w (begin_idempotent_task h key owner w).1
unfolding after_call
begin-Stays h key owner w = record {
  consistent = after_call-closed IsConsistent-closed (begin_key h key owner) w;
  piped = (begin_idempotent_task-IsAside h key owner).piped w;
  same_tables = (begin_idempotent_task-IsAside h key owner).same_tables w;
}

complete-Stays :
    (h key owner : String) (r : RawMessage) (w : World)
    → Stays w (complete_idempotent_task h key owner r w).1
unfolding after_call
complete-Stays h key owner r w = record {
  consistent = after_call-closed IsConsistent-closed (complete_key h key owner r) w;
  piped = (complete_idempotent_task-IsAside h key owner r).piped w;
  same_tables = (complete_idempotent_task-IsAside h key owner r).same_tables w;
}

release-Stays :
    (h key owner : String) (w : World) → Stays w (release_idempotent_task h key owner w).1
unfolding after_call
release-Stays h key owner w = record {
  consistent = after_call-closed IsConsistent-closed (release_key h key owner) w;
  piped = (release_idempotent_task-IsAside h key owner).piped w;
  same_tables = (release_idempotent_task-IsAside h key owner).same_tables w;
}

module _ (lib : Library) (key : String) (respond : TaskInstance → Json → ℕ → Json)
    (task : TaskInstance) where
  after_complete-Stays :
      (response : RawMessage) (r : Result (Unit {0}) × World)
      → Stays r.1 (after_complete key task response r).1
  after_complete-Stays response (ok u, w) = Stays-refl w
  after_complete-Stays response (err e, w) = release-Stays key task.idempotency_key task.id w

  after_begin-Stays : (b : Begun) (w : World) → Stays w (after_begin lib key respond task b w).1
  unfolding after_begin process_input
  after_begin-Stays (replayed response) w = Stays-refl w
  after_begin-Stays proceed w = go (decode_input lib task.input_json)
    where
      go : (r : Result Json) → Stays w (process_input lib key respond task r w).1
      go (err e) = release-Stays key task.idempotency_key task.id w
      go (ok input) =
          let response = document (respond task input w.clock) in
          let done = complete_idempotent_task key task.idempotency_key task.id response w in
          Stays-trans w done.1 _ (complete-Stays key task.idempotency_key task.id response w)
            (after_complete-Stays response done)

  handle_idempotently-Stays :
      (missing : String) (has_store : Bool) (w : World)
      → Stays w (handle_idempotently lib key missing has_store respond task w).1
  unfolding handle_idempotently
  handle_idempotently-Stays missing false w = Stays-refl w
  handle_idempotently-Stays missing true w =
      let begun = begin_idempotent_task key task.idempotency_key task.id w in
      Stays-trans w begun.1 _ (begin-Stays key task.idempotency_key task.id w) (go begun.0 begun.1)
    where
      go :
          (r : Result Begun) (v : World)
          → Stays v (continue r (after_begin lib key respond task) v).1
      go (ok b) v = after_begin-Stays b v
      go (err e) v = Stays-refl v

pub sample_echo_handler-IsLocal :
    (lib : Library) (has_store : Bool) → IsLocal (sample_echo_handler lib has_store)
unfolding sample_echo_handler
sample_echo_handler-IsLocal lib has_store task w =
    handle_idempotently-Stays lib "sample.echo" _ task _ has_store w

pub notification_send_handler-IsLocal :
    (lib : Library) (has_store : Bool) → IsLocal (notification_send_handler lib has_store)
unfolding notification_send_handler
notification_send_handler-IsLocal lib has_store task w =
    handle_idempotently-Stays lib "notifications.send" _ task _ has_store w
