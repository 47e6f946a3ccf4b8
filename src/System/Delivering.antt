-- ===== src/System/Delivering.antt =====
-- A worker's handling of the entries it is handed, `processMessages` of internal/queue/redis_streams.go
-- with the handler of internal/orchestrator/worker.go, forgets no task: an entry is acknowledged only
-- after its task is settled.
use durable_work_flow_engine.Prelude.{
  ◌≡◌, refl, ap, sym, subst, ◌∙◌, ◌⊎◌, inl, inr, false, List, [], ◌∷◌, nat_eq, All, Any-map,
  Distinct,
}
use durable_work_flow_engine.Domain.{Result, ok, err, TaskMessage, StreamEntry}
use durable_work_flow_engine.Db.{World, Pipe, pipe, Fault, fine, refused, reply_lost}
use durable_work_flow_engine.Db.Exec.{statement, counted, answer, continue}
use durable_work_flow_engine.Store.Consistency.{IsConsistent}
use durable_work_flow_engine.Handlers.{Handler}
use durable_work_flow_engine.Worker.{handle_dispatched_task, handle_message}
use durable_work_flow_engine.Queue.{
  decode_task_message, acknowledge, after_delivery, deliver, process_message, process_messages,
}
use durable_work_flow_engine.System.Coverage.{IsOpen, IsFor, OpenEntry, NoneLost, IsNumberedPipe}
use durable_work_flow_engine.System.Publishing.{IsSafe}
use durable_work_flow_engine.System.Settling.{Settled}
use durable_work_flow_engine.System.Handling.{IsLocal, handle_dispatched_task-IsHandled}
use durable_work_flow_engine.System.Acknowledging.{
  IsIn, acked_too, same_id, acked_too-IsOpen, acked-NoneLost, acked-IsNumberedPipe,
}

-- The tables are consistent, the entries numbered, and no task is lost.
abbrev pub IsSound : World → Type 0
IsSound w = IsConsistent w.db × IsSafe w.db (pipe w)

-- The entry is in the stream and not acknowledged.
abbrev pub IsUnacked : Pipe → StreamEntry → Type 0
IsUnacked q e = IsIn e q × IsOpen q.1 e

-- What Redis hands out at once: entries that are not acknowledged, each one once.
abbrev pub IsBatch : Pipe → List StreamEntry → Type 0
IsBatch q es = All (IsUnacked q) es × Distinct same_id es

-- The stream, and the acknowledged ids with that of `e` or without it.
abbrev Acked : StreamEntry → Pipe → Pipe → Type 0
Acked e q q' = (q' ≡ q) ⊎ (q' ≡ acked_too e q)

-- After an entry is processed, all is well, and the rest of the batch is not acknowledged.
abbrev IsProcessed : StreamEntry → Pipe → World → Type 0
IsProcessed e q w = IsSound w × Acked e q (pipe w)

rest-IsUnacked :
    (e : StreamEntry) (q q' : Pipe) (es : List StreamEntry)
    → Acked e q q'
    → All (λ x. nat_eq x.id e.id ≡ false) es
    → All (IsUnacked q) es
    → All (IsUnacked q') es
rest-IsUnacked e q q' es (inl same) other h = subst (λ z. All (IsUnacked z) es) (sym same) h
rest-IsUnacked e q q' es (inr same) other h =
    subst (λ z. All (IsUnacked z) es) (sym same) (go es other h)
  where
    go :
        (es : List StreamEntry)
        → All (λ x. nat_eq x.id e.id ≡ false) es
        → All (IsUnacked q) es
        → All (IsUnacked (acked_too e q)) es
    go [] other h = tt
    go (x ∷ es) other h = ((h.0.0, acked_too-IsOpen e x q.1 other.0 h.0.1), go es other.1 h.1)

module _ (registry : List Handler) (local : All IsLocal registry) where
  -- An entry that decodes serves its task.
  entry-OpenEntry :
      (e : StreamEntry) (m : TaskMessage) (q : Pipe)
      → IsUnacked q e
      → decode_task_message e ≡ ok m
      → OpenEntry q m.task_id
  entry-OpenEntry e m q u decoded =
      Any-map q.0
        (λ x same.
          subst (λ z. IsOpen q.1 z × IsFor m.task_id z) (sym same) (u.1, (m, decoded, refl)))
        u.0

  acknowledge-IsProcessed :
      (e : StreamEntry) (m : TaskMessage) (q : Pipe) (w : World)
      → IsIn e q
      → decode_task_message e ≡ ok m
      → Settled w.db m.task_id
      → IsSound w
      → pipe w ≡ q
      → IsProcessed e q (acknowledge e.id w).1
  unfolding acknowledge statement
  acknowledge-IsProcessed e m q w i decoded settled h same = go (w.faults w.calls)
    where
      here : IsIn e (pipe w)
      here = subst (IsIn e) (sym same) i

      done : IsProcessed e q (record (counted w) { acked = e.id ∷ w.acked })
      done = (
        (
          h.0,
          (
            acked-IsNumberedPipe e (pipe w) here h.1.0,
            acked-NoneLost e m w.db (pipe w) h.1.0.distinct here decoded settled h.1.1,
          ),
        ),
        inr (ap (acked_too e) same),
      )

      go :
          (f : Fault)
          → IsProcessed e q
              (answer f (counted w) (ok tt, record (counted w) { acked = e.id ∷ w.acked })).1
      go fine = done
      go (refused x) = (h, inl same)
      go (reply_lost x) = done

  deliver-IsProcessed :
      (e : StreamEntry) (q : Pipe) (w : World) (r : Result TaskMessage)
      → IsUnacked q e
      → decode_task_message e ≡ r
      → IsSound w
      → pipe w ≡ q
      → IsProcessed e q (deliver (handle_message registry) e.id r w).1
  unfolding handle_message
  deliver-IsProcessed e q w (err x) u decoded h same = (h, inl same)
  deliver-IsProcessed e q w (ok m) u decoded h same =
      let handling = handle_dispatched_task registry m w in
      let entry = entry-OpenEntry e m q u decoded in
      let (good, settled) =
        handle_dispatched_task-IsHandled q m.task_id entry registry m w local refl
          (h.0, same, subst (NoneLost w.db) same h.1.1) in
      let v = handling.world in
      let sound : IsSound v = (
        good.0,
        (subst IsNumberedPipe (same ∙ sym good.1) h.1.0, subst (NoneLost v.db) (sym good.1) good.2),
      ) in
      go handling.result refl v sound good.1 settled
    where
      go :
          (r : Result (Unit {0}))
          → (handle_dispatched_task registry m w).result ≡ r
          → (v : World) → IsSound v
          → pipe v ≡ q
          → ((handle_dispatched_task registry m w).result ≡ ok tt → Settled v.db m.task_id)
          → IsProcessed e q (after_delivery e.id r v).1
      go (err x) ran v sound same settled = (sound, inl same)
      go (ok t) ran v sound same settled =
          acknowledge-IsProcessed e m q v u.0 decoded (settled ran) sound same

  process_message-IsProcessed :
      (e : StreamEntry) (w : World)
      → IsUnacked (pipe w) e
      → IsSound w
      → IsProcessed e (pipe w) (process_message (handle_message registry) e w).1
  unfolding process_message
  process_message-IsProcessed e w u h =
      deliver-IsProcessed e (pipe w) w (decode_task_message e) u refl h refl

  pub process_messages-IsSound :
      (es : List StreamEntry) (w : World)
      → IsBatch (pipe w) es
      → IsSound w
      → IsSound (process_messages (handle_message registry) es w).1
  unfolding process_messages
  process_messages-IsSound [] w b h = h
  process_messages-IsSound (e ∷ es) w b h =
      let first = process_message (handle_message registry) e w in
      let done = process_message-IsProcessed e w b.0.0 h in
      go first.0 first.1 done.0
        (rest-IsUnacked e (pipe w) (pipe first.1) es done.1 b.1.0 b.0.1, b.1.1)
        λ v c i. process_messages-IsSound es v c i
    where
      go :
          (r : Result (Unit {0})) (v : World)
          → IsSound v
          → IsBatch (pipe v) es
          → ((v : World)
              → IsBatch (pipe v) es
              → IsSound v
              → IsSound (process_messages (handle_message registry) es v).1)
          → IsSound (continue r (λ u. process_messages (handle_message registry) es) v).1
      go (ok u) v i c rest = rest v c i
      go (err x) v i c rest = i
