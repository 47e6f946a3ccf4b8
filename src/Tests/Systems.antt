-- ===== src/Tests/Systems.antt =====
-- The theorems on the whole engine at a history of a few actions, and on the stream.
use durable_work_flow_engine.Prelude.{
  String, ◌≢◌, eq_iff, ◌≡◌, refl, inl, inr, subst, not, Bool, true, Bool-cases, Option, none, some,
  List, [], ◌∷◌, All, Any, find, any, nat_eq, arith, pos,
}
use durable_work_flow_engine.Domain.{
  empty, obj, field, end, str, Result, redis_nil, ok, err, document, StreamEntry,
}
use durable_work_flow_engine.Db.{World, Pipe, pipe}
use durable_work_flow_engine.Store.Calls.{empty_database}
use durable_work_flow_engine.Worker.{handle_dispatched_task}
use durable_work_flow_engine.Queue.Options.{IsNormalized, normalize_consume_options-IsNormalized}
use durable_work_flow_engine.Handlers.{
  Handler, Library, sample_echo_handler, notification_send_handler,
}
use durable_work_flow_engine.Queue.{normalize_consume_options, ConsumeOptions, Deliveries, entry_of}
use durable_work_flow_engine.Queue.Entries.{decode_task_message-entry_of}
use durable_work_flow_engine.HttpApi.{Request, answer_with, no_body}
use durable_work_flow_engine.HttpApi.Server.{Answers, serve}
use durable_work_flow_engine.HttpApi.Safety.{serve-read_only}
use durable_work_flow_engine.System.Coverage.{IsCovered, OpenEntry, queued}
use durable_work_flow_engine.System.Handling.{IsLocal, IsHandled, handle_dispatched_task-IsHandled}
use durable_work_flow_engine.System.Locality.{
  sample_echo_handler-IsLocal, notification_send_handler-IsLocal,
}
use durable_work_flow_engine.System.Delivering.{IsBatch}
use durable_work_flow_engine.System.Consuming.{IsRedis, concat}
use durable_work_flow_engine.System.History.{
  request, publish, consume, run, History, first, next, History-NoneLost,
}
use durable_work_flow_engine.Tests.Data.{two_tasks_json, world_on, message}
use durable_work_flow_engine.Tests.Packing.{packing_db, packing_db-IsConsistent}

abbrev is_open : World → StreamEntry → Bool
is_open w x = not (any (nat_eq x.id) w.acked)

-- Redis with one group that is handed one entry at a time.
abbrev redis : Deliveries
redis = record {
  claim = λ opts w. ok [];
  read = λ opts w. elim (find (is_open w) w.stream) [
    | none ↦ err redis_nil
    | some x ↦ ok ((x ∷ []) ∷ [])
  ];
}

find-IsIn :
    (p : StreamEntry → Bool) (xs : List StreamEntry) (x : StreamEntry)
    → find p xs ≡ some x
    → Any (λ y. y ≡ x) xs × (p x ≡ true)
find-IsIn p [] x h = cc
find-IsIn p (y ∷ xs) x h = elim (Bool-cases (p y)) [
  | inl e ↦ let same : y ≡ x = ground (arith, e, h) in (inl same, subst (λ z. p z ≡ true) same e)
  | inr e ↦ let (i, t) = find-IsIn p xs x (ground (arith, e, h)) in (inr i, t)
]

same_result : {A : Type 0} {a b : A} → ok a ≡ ok b → a ≡ b
same_result e = cc

read-IsBatch :
    (w : World) (found : Option StreamEntry) (streams : List (List StreamEntry))
    → find (is_open w) w.stream ≡ found
    → ◌≡◌ {A = Result (List (List StreamEntry))}
        (elim found [ none ↦ err redis_nil | some x ↦ ok ((x ∷ []) ∷ []) ])
        (ok streams)
    → IsBatch (pipe w) (concat streams)
read-IsBatch w none streams e h = cc
read-IsBatch w (some x) streams e h =
    let (i, t) = find-IsIn (is_open w) w.stream x e in
    subst (λ l. IsBatch (pipe w) (concat l)) (same_result h)
      (((i, ground (arith, t)), tt), (tt, tt))

redis-IsRedis : IsRedis redis
redis-IsRedis = record {
  claims = λ opts w es h. subst (IsBatch (pipe w)) (same_result h) (tt, tt);
  reads = λ opts w streams h. read-IsBatch w (find (is_open w) w.stream) streams refl h;
}

abbrev lib : Library
lib = record { reencode = λ fs. ok fs; rfc3339 = λ t. "2026-01-01T00:00:00Z" }

abbrev registry : List Handler
registry = sample_echo_handler lib true ∷ notification_send_handler lib true ∷ []

registry-IsLocal : All IsLocal registry
registry-IsLocal =
    (sample_echo_handler-IsLocal lib true, (notification_send_handler-IsLocal lib true, tt))

abbrev opts : ConsumeOptions
opts = record {
  reclaim_min_idle = pos 60000000000;
  reclaim_count = pos 20;
  read_count = pos 0;
  block = pos 0;
}

-- A definition, an execution, a round of the publisher and a round of a worker.
abbrev answers : Answers
answers = record {
  metrics = answer_with 200 no_body;
  moved = λ path. answer_with 301 no_body;
  not_found = answer_with 404 no_body;
}

abbrev create_packing : Request
create_packing = record {
  method = "POST";
  path = "/api/workflows";
  limit = "";
  body = document (obj (field "name" (str "packing") (field "definition" two_tasks_json end)));
}

abbrev start_packing : Request
start_packing = record {
  method = "POST";
  path = "/api/executions";
  limit = "";
  body = document (obj (field "workflow_definition_id" (str "id") end));
}

abbrev start : World
start = world_on empty_database

abbrev defined : World
defined = run (request answers create_packing) start

abbrev triggered : World
triggered = run (request answers start_packing) defined

abbrev published : World
published = run publish triggered

abbrev consumed : World
consumed = run (consume registry opts (redis ∷ [])) published

history : History consumed
history =
    next
      (next
        (next
          (next (first {w = start} refl refl) (request answers create_packing) start tt refl refl
            refl)
          (request answers start_packing) defined tt refl refl refl)
        publish triggered tt refl refl refl)
      (consume registry opts (redis ∷ [])) published (registry-IsLocal, (redis-IsRedis, tt)) refl
      refl refl

History-NoneLost_example :
    All (IsCovered consumed.db.outbox_events (pipe consumed)) consumed.db.task_instances
History-NoneLost_example = History-NoneLost history

-- The entry of a stream for the task of the message.
abbrev stream : Pipe
stream = (entry_of 0 message ∷ [], [])

stream-OpenEntry : OpenEntry stream "t1"
stream-OpenEntry = inl (refl, (message, decode_task_message-entry_of 0 message, refl))

abbrev waiting : World
waiting = record (world_on packing_db) { stream = stream.0 }

handle_dispatched_task-IsHandled_example :
    IsHandled stream "t1" (handle_dispatched_task registry message waiting)
handle_dispatched_task-IsHandled_example =
    handle_dispatched_task-IsHandled stream "t1" stream-OpenEntry registry message waiting
      registry-IsLocal refl (packing_db-IsConsistent, refl, (queued stream-OpenEntry, tt))

normalize_consume_options-IsNormalized_example :
    IsNormalized
      (pos 30000000000)
      opts.reclaim_min_idle
      (normalize_consume_options opts).reclaim_min_idle
    × IsNormalized (pos 10) opts.reclaim_count (normalize_consume_options opts).reclaim_count
    × IsNormalized (pos 1) opts.read_count (normalize_consume_options opts).read_count
    × IsNormalized (pos 5000000000) opts.block (normalize_consume_options opts).block
normalize_consume_options-IsNormalized_example = normalize_consume_options-IsNormalized opts

abbrev listing : Request
listing = record { method = "GET"; path = "/api/dead-letter-tasks"; limit = "20"; body = empty }

get_is_no_post : ◌≢◌ {A = String} "GET" "POST"
get_is_no_post e = let same = (eq_iff "GET" "POST").1 e in ground (arith, same)

serve-read_only_example : (serve answers listing consumed).1.db ≡ consumed.db
serve-read_only_example = serve-read_only answers listing consumed get_is_no_post
