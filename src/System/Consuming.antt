-- ===== src/System/Consuming.antt =====
-- The consumer of internal/queue/redis_streams.go, with the handler of a worker, forgets no task,
-- whatever Redis hands out.
use durable_work_flow_engine.Prelude.{
  ◌≡◌, refl, sym, subst, ◌∙◌, inl, inr, List, [], ◌∷◌, ◌++◌, arith, All, Bool-cases,
}
use durable_work_flow_engine.Domain.{Result, ok, err, StreamEntry, is_redis_nil}
use durable_work_flow_engine.Db.{World, pipe}
use durable_work_flow_engine.Db.Exec.{continue, ◌>>◌}
use durable_work_flow_engine.Handlers.{Handler}
use durable_work_flow_engine.Worker.{handle_message}
use durable_work_flow_engine.Queue.{
  ConsumeOptions, Deliveries, process_message, process_messages, process_streams, consume_rounds,
  claimed, after_read, after_claim, consume_once,
}
use durable_work_flow_engine.System.Handling.{IsLocal}
use durable_work_flow_engine.System.Delivering.{IsSound, IsBatch, process_messages-IsSound}

abbrev pub concat : List (List StreamEntry) → List StreamEntry
concat [] = []
concat (es ∷ streams) = es ++ concat streams

-- `XAUTOCLAIM` returns pending entries of the group, which are delivered and not acknowledged, and
-- `XREADGROUP` with `>` entries that were never delivered to the group.
pub record IsRedis (redis : Deliveries) : Type 0 where
  pub claims :
      (opts : ConsumeOptions) (w : World) (es : List StreamEntry)
      → redis.claim opts w ≡ ok es
      → IsBatch (pipe w) es
  pub reads :
      (opts : ConsumeOptions) (w : World) (streams : List (List StreamEntry))
      → redis.read opts w ≡ ok streams
      → IsBatch (pipe w) (concat streams)

same_batch : {es fs : List StreamEntry} → ok es ≡ ok fs → es ≡ fs
same_batch e = cc

module _ (registry : List Handler) (local : All IsLocal registry) where
  -- The streams of a result are processed like one list of entries.
  process_messages-append :
      (es fs : List StreamEntry) (w : World)
      → process_messages (handle_message registry) (es ++ fs) w
        ≡ (process_messages (handle_message registry) es
              >> process_messages (handle_message registry) fs)
            w
  unfolding process_messages
  process_messages-append [] fs w = refl
  process_messages-append (e ∷ es) fs w =
      let first = process_message (handle_message registry) e w in
      go first.0 first.1 λ v. process_messages-append es fs v
    where
      go :
          (r : Result (Unit {0})) (v : World)
          → ((v : World)
              → process_messages (handle_message registry) (es ++ fs) v
                ≡ (process_messages (handle_message registry) es
                      >> process_messages (handle_message registry) fs)
                    v)
          → continue r (λ u. process_messages (handle_message registry) (es ++ fs)) v ≡ (
              let x = continue r (λ u. process_messages (handle_message registry) es) v in
              continue x.0 (λ u. process_messages (handle_message registry) fs) x.1)
      go (ok u) v rest = rest v
      go (err x) v rest = refl

  process_streams-concat :
      (streams : List (List StreamEntry)) (w : World)
      → process_streams (handle_message registry) streams w
        ≡ process_messages (handle_message registry) (concat streams) w
  unfolding process_streams process_messages
  process_streams-concat [] w = refl
  process_streams-concat (es ∷ streams) w =
      let first = process_messages (handle_message registry) es w in
      go first.0 first.1 (λ v. process_streams-concat streams v)
      ∙ sym (process_messages-append es (concat streams) w)
    where
      go :
          (r : Result (Unit {0})) (v : World)
          → ((v : World)
              → process_streams (handle_message registry) streams v
                ≡ process_messages (handle_message registry) (concat streams) v)
          → continue r (λ u. process_streams (handle_message registry) streams) v
            ≡ continue r (λ u. process_messages (handle_message registry) (concat streams)) v
      go (ok u) v rest = rest v
      go (err x) v rest = refl

  after_read-IsSound :
      (r : Result (List (List StreamEntry))) (w : World)
      → ((streams : List (List StreamEntry)) → r ≡ ok streams → IsBatch (pipe w) (concat streams))
      → IsSound w
      → IsSound (after_read (handle_message registry) r w).1
  after_read-IsSound (ok streams) w b h =
      subst (λ x. IsSound x.1) (sym (process_streams-concat streams w))
        (process_messages-IsSound registry local (concat streams) w (b streams refl) h)
  after_read-IsSound (err e) w b h = elim (Bool-cases (is_redis_nil e)) [
    | inl empty ↦ rw empty h
    | inr other ↦ rw other h
  ]

  after_claim-IsSound :
      (opts : ConsumeOptions) (redis : Deliveries) (r : Result (List StreamEntry)) (w : World)
      → IsRedis redis
      → ((es : List StreamEntry) → r ≡ ok es → IsBatch (pipe w) es)
      → IsSound w
      → IsSound (after_claim (handle_message registry) opts redis r w).1
  after_claim-IsSound opts redis (err e) w k b h = h
  after_claim-IsSound opts redis (ok (e ∷ es)) w k b h =
      process_messages-IsSound registry local (e ∷ es) w (b (e ∷ es) refl) h
  after_claim-IsSound opts redis (ok []) w k b h =
      after_read-IsSound (redis.read opts w) w (k.reads opts w) h

  -- A round of the loop of `Consume` keeps the tables consistent and loses no task, whatever Redis
  -- hands out and whatever the faults.
  pub consume_once-IsSound :
      (opts : ConsumeOptions) (redis : Deliveries) (w : World)
      → IsRedis redis
      → IsSound w
      → IsSound (consume_once (handle_message registry) opts redis w).1
  unfolding consume_once
  consume_once-IsSound opts redis w k h =
      after_claim-IsSound opts redis (claimed (redis.claim opts w)) w k
        (claimed_batch (redis.claim opts w) (k.claims opts w)) h
    where
      claimed_batch :
          (r : Result (List StreamEntry))
          → ((es : List StreamEntry) → r ≡ ok es → IsBatch (pipe w) es)
          → (es : List StreamEntry) → claimed r ≡ ok es
          → IsBatch (pipe w) es
      claimed_batch (ok fs) b es e = b es e
      claimed_batch (err x) b es e = elim (Bool-cases (is_redis_nil x)) [
        | inl empty ↦
            let same : ok [] ≡ ok es = rw empty at e in
            subst (IsBatch (pipe w)) (same_batch same) (tt, tt)
        | inr other ↦ absurd (ground (arith, rw other at e))
      ]

  pub consume_rounds-IsSound :
      (opts : ConsumeOptions) (rounds : List Deliveries) (w : World)
      → All IsRedis rounds
      → IsSound w
      → IsSound (consume_rounds (handle_message registry) opts rounds w).1
  unfolding consume_rounds
  consume_rounds-IsSound opts [] w k h = h
  consume_rounds-IsSound opts (redis ∷ rounds) w k h =
      let first = consume_once (handle_message registry) opts redis w in
      go first.0 first.1 (consume_once-IsSound opts redis w k.0 h)
        λ v i. consume_rounds-IsSound opts rounds v k.1 i
    where
      go :
          (r : Result (Unit {0})) (v : World)
          → IsSound v
          → ((v : World)
              → IsSound v
              → IsSound (consume_rounds (handle_message registry) opts rounds v).1)
          → IsSound (continue r (λ u. consume_rounds (handle_message registry) opts rounds) v).1
      go (ok u) v i rest = rest v i
      go (err x) v i rest = i
