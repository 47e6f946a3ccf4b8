-- ===== src/System/History.antt =====
-- The engine as a whole: clients, publishers and workers on one database and one stream, each at its
-- turn.
use durable_work_flow_engine.Prelude.{◌≡◌, sym, subst, List, [], All}
use durable_work_flow_engine.Db.{World, pipe}
use durable_work_flow_engine.Store.Calls.{empty_database, here}
use durable_work_flow_engine.Store.Consistency.{IsConsistent, Reachable-IsConsistent}
use durable_work_flow_engine.Handlers.{Handler}
use durable_work_flow_engine.Publisher.{publish_once}
use durable_work_flow_engine.Queue.{ConsumeOptions, Deliveries, consume_rounds}
use durable_work_flow_engine.Worker.{handle_message}
use durable_work_flow_engine.System.Coverage.{IsCovered}
use durable_work_flow_engine.System.Publishing.{
  IsSafe, publish_once-IsSafe, publish_once-IsConsistent,
}
use durable_work_flow_engine.System.Handling.{IsLocal}
use durable_work_flow_engine.System.Delivering.{IsSound}
use durable_work_flow_engine.System.Consuming.{IsRedis, consume_rounds-IsSound}
use durable_work_flow_engine.System.Answering.{serve-IsSound}
use durable_work_flow_engine.HttpApi.{Request}
use durable_work_flow_engine.HttpApi.Server.{Answers, serve}

-- A request to the API, a round of a publisher, or some rounds of a worker's loop.
pub data Action : Type 0 where
  request : Answers → Request → Action
  publish : Action
  consume : List Handler → ConsumeOptions → List Deliveries → Action

unfoldable pub run : Action → World → World
run (request answers r) w = (serve answers r w).1
run publish w = (publish_once w).1
run (consume registry opts rounds) w = (consume_rounds (handle_message registry) opts rounds w).1

-- The worker's handlers do their work elsewhere, and Redis hands out what it has.
abbrev pub IsAllowed : Action → Type 0
IsAllowed (consume registry opts rounds) = All IsLocal registry × All IsRedis rounds
IsAllowed _ = Unit

-- The worlds that come about from an empty database and stream by actions one after another, each
-- with any clock, any generated ids and any faults: a process that dies in the middle of an action is
-- one whose further round trips are all refused.
pub data History : World → Type 0 where
  first : {w : World} → w.db ≡ empty_database → pipe w ≡ ([], []) → History w
  next :
      {old after : World}
      → History old
      → (a : Action) (w : World) → IsAllowed a
      → w.db ≡ old.db
      → pipe w ≡ pipe old
      → after ≡ run a w
      → History after

empty-IsSound : (w : World) → w.db ≡ empty_database → pipe w ≡ ([], []) → IsSound w
empty-IsSound w empty nothing = (
  Reachable-IsConsistent (here empty),
  subst (λ d. IsSafe d (pipe w)) (sym empty)
      (subst (IsSafe empty_database) (sym nothing)
        (record { below = tt; distinct = tt; acked_below = tt }, tt)),
)

run-IsSound : (a : Action) (w : World) → IsAllowed a → IsSound w → IsSound (run a w)
unfolding run
run-IsSound (request answers r) w k h = serve-IsSound answers r w h
run-IsSound publish w k h = (publish_once-IsConsistent w h.0, publish_once-IsSafe w h.0 h.1)
run-IsSound (consume registry opts rounds) w k h =
    consume_rounds-IsSound registry k.0 opts rounds w k.1 h

History-IsSound : {w : World} → History w → IsSound w
History-IsSound {w} (first empty nothing) = empty-IsSound w empty nothing
History-IsSound (next {old} h a w k same_db same_pipe e) = subst IsSound (sym e) (
    run-IsSound a w k (
      subst (λ d. IsConsistent d × IsSafe d (pipe w)) (sym same_db)
        (subst (λ q. IsConsistent old.db × IsSafe old.db q) (sym same_pipe) (History-IsSound h))))

-- In every history no task is forgotten: each task in the tables is succeeded or dead-lettered, or
-- pending with the time of its next attempt, or an event of the outbox that is not dispatched
-- announces it, or an entry of the stream that is not acknowledged is for it.
pub History-NoneLost :
    {w : World} → History w → All (IsCovered w.db.outbox_events (pipe w)) w.db.task_instances
History-NoneLost h = (History-IsSound h).1.1
