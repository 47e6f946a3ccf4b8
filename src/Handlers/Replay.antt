-- ===== src/Handlers/Replay.antt =====
-- A handler that has answered once gives the same answer to every later delivery of the task.
use mathlib.Core.Path.{subst₂}
use durable_work_flow_engine.Prelude.{ℕ, String, ◌≡◌, refl, sym, subst, true, arith}
use durable_work_flow_engine.Domain.{RawMessage, document, Json, Result, ok, err, TaskInstance}
use durable_work_flow_engine.Db.{World}
use durable_work_flow_engine.Db.Exec.{>>=-ok}
use durable_work_flow_engine.Store.Idempotency.{
  Begun, replayed, proceed, begin_idempotent_task, complete_idempotent_task,
}
use durable_work_flow_engine.Store.Consistency.{IsConsistent, IsConsistent-closed}
use durable_work_flow_engine.Handlers.{
  Library, process_input, after_complete, after_begin, decode_input, handle_idempotently,
}
use durable_work_flow_engine.Handlers.Answers.{
  IsAnswered, Reaches, begin_answered, complete_answers, begin_replayed,
}

process_ok :
    (lib : Library) (key : String) (respond : TaskInstance → Json → ℕ → Json) (task : TaskInstance)
    (r : Result Json) (response : RawMessage) (w w' : World)
    → IsConsistent w.db
    → process_input lib key respond task r w ≡ (ok response, w')
    → IsAnswered key task.idempotency_key response w'.db
unfolding process_input
process_ok lib key respond task (err e) response w w' c h = absurd (cc)
process_ok lib key respond task (ok input) response w w' c h =
    let j = respond task input w.clock in
    let done = complete_idempotent_task key task.idempotency_key task.id (document j) w in
    go done refl h
  where
    go :
        (done : Result (Unit {0}) × World)
        → complete_idempotent_task key task.idempotency_key task.id
            (document (respond task input w.clock))
            w
          ≡ done
        → after_complete key task (document (respond task input w.clock)) done ≡ (ok response, w')
        → IsAnswered key task.idempotency_key response w'.db
    go (err e, v) ran h = absurd (cc)
    go (ok u, v) ran h =
        let a =
          complete_answers key task.idempotency_key task.id (respond task input w.clock) w v u c
            ran in
        let same : response ≡ document (respond task input w.clock) = ground arith in
        let final : w' ≡ v = ground arith in
        subst₂ (λ x y. IsAnswered key task.idempotency_key x y.db) (sym same) (sym final) a

after_begin-ok :
    (lib : Library) (key : String) (respond : TaskInstance → Json → ℕ → Json) (task : TaskInstance)
    (b : Begun) (response : RawMessage) (w w1 w' : World)
    → begin_idempotent_task key task.idempotency_key task.id w ≡ (ok b, w1)
    → IsConsistent w.db
    → after_begin lib key respond task b w1 ≡ (ok response, w')
    → IsAnswered key task.idempotency_key response w'.db
unfolding after_begin
after_begin-ok lib key respond task (replayed old) response w w1 w' begun c h =
    let a = begin_replayed key task.idempotency_key task.id old w w1 begun in
    let same : response ≡ old = ground arith in
    let final : w' ≡ w1 = ground arith in
    subst₂ (λ x y. IsAnswered key task.idempotency_key x y.db) (sym same) (sym final) a
after_begin-ok lib key respond task proceed response w w1 w' begun c h =
    let kept =
      (IsConsistent-closed.begin_idempotent_task key task.idempotency_key task.id).at w c in
    process_ok lib key respond task (decode_input lib task.input_json) response w1 w'
      (subst (λ x. IsConsistent x.1.db) begun kept) h

-- When a handler answers, its record is completed with that answer.
pub handle_idempotently-answers :
    (lib : Library) (key missing : String) (respond : TaskInstance → Json → ℕ → Json)
    (task : TaskInstance) (response : RawMessage) (w w' : World)
    → IsConsistent w.db
    → handle_idempotently lib key missing true respond task w ≡ (ok response, w')
    → IsAnswered key task.idempotency_key response w'.db
unfolding handle_idempotently
handle_idempotently-answers lib key missing respond task response w w' c h =
    let (b, w1, begun, rest) =
      >>=-ok (begin_idempotent_task key task.idempotency_key task.id) _ w w' response h in
    after_begin-ok lib key respond task b response w w1 w' begun c rest

-- Once a handler has answered a task, every later delivery of a task with the same idempotency key
-- gets the same answer and changes nothing in the database, where the first call started from a
-- consistent database, and nothing was written between the two calls, and the next two round trips
-- succeed. The first call may have met any faults.
pub handle_twice :
    (lib : Library) (key missing : String) (respond : TaskInstance → Json → ℕ → Json)
    (first second : TaskInstance) (response : RawMessage) (w w' later : World)
    → IsConsistent w.db
    → handle_idempotently lib key missing true respond first w ≡ (ok response, w')
    → second.idempotency_key ≡ first.idempotency_key
    → later.db ≡ w'.db
    → Reaches later
    → ((handle_idempotently lib key missing true respond second later).0 ≡ ok response)
      × ((handle_idempotently lib key missing true respond second later).1.db ≡ later.db)
unfolding handle_idempotently after_begin
handle_twice lib key missing respond first second response w w' later c h same db f =
    let a = handle_idempotently-answers lib key missing respond first response w w' c h in
    let a' : IsAnswered key second.idempotency_key response later.db =
      subst₂ (λ k d. IsAnswered key k response d) (sym same) (sym db) a in
    let (result, kept) = begin_answered key second.idempotency_key second.id response later a' f in
    (ground (arith, result), ground (arith, result, kept))
