-- ===== src/Handlers.antt =====
-- internal/handlers: the registry, and the two handlers that the worker registers.
pub mod Answers
pub mod Replay
use durable_work_flow_engine.Prelude.{
  ℕ, String, Bool, true, false, Option, none, some, List, [], ◌∷◌, if◌then◌else◌, ◌==◌,
}
use durable_work_flow_engine.Domain.{
  RawMessage, empty, malformed, document, Json, null, str, obj, Fields, end, field, Error, Result,
  ok, err, errors_new, TaskInstance, type_error, syntax_error,
}
use durable_work_flow_engine.Domain
use durable_work_flow_engine.Db.{World}
use durable_work_flow_engine.Db.Exec.{Exec, pure, raise, ◌>>=◌, ◌>>◌}
use durable_work_flow_engine.Store.Idempotency.{
  Begun, replayed, proceed, begin_idempotent_task, complete_idempotent_task,
  release_idempotent_task,
}

pub record Handler : Type 0 where
  pub key : String
  pub handle : TaskInstance → Exec RawMessage

-- `NewRegistry` and `Get`: of two handlers with one key the later one is kept.
unfoldable pub get_handler : List Handler → String → Option Handler
get_handler [] key = none
get_handler (h ∷ hs) key = elim (get_handler hs key) [
  | some later ↦ some later
  | none ↦ if h.key == key then some h else none
]

-- What the standard library makes of floating-point numbers and of times: an object that is decoded
-- into `map[string]any` and encoded again, and `Format(time.RFC3339)` in UTC.
pub record Library : Type 0 where
  pub reencode : Fields → Result Fields
  pub rfc3339 : ℕ → String

-- `_ = h.idempotencyStore.ReleaseIdempotentTask(...)` and `return nil, err`
abbrev pub released_with : String → TaskInstance → Error → Exec RawMessage
released_with key task e w =
    let (released, w') = release_idempotent_task key task.idempotency_key task.id w in (err e, w')

-- From `CompleteIdempotentTask`.
abbrev pub after_complete :
    String → TaskInstance → RawMessage → Result (Unit {0}) × World → Result RawMessage × World
after_complete key task response (ok u, w) = (ok response, w)
after_complete key task response (err e, w) = released_with key task e w

module _ (lib : Library) where
  -- `json.Unmarshal(task.InputJSON, &input)` where there is an input, and `input` as it is encoded.
  unfoldable pub decode_input : RawMessage → Result Json
  decode_input empty = ok null
  decode_input (malformed text) = syntax_error
  decode_input (document null) = ok null
  decode_input (document (obj fs)) = elim (lib.reencode fs) [ ok gs ↦ ok (obj gs) | err e ↦ err e ]
  decode_input (document _) = type_error

  -- From `BeginIdempotentTask` saying to proceed; `json.Marshal` of the response does not fail, since
  -- it holds texts and decoded values only.
  unfoldable pub process_input :
      String → (TaskInstance → Json → ℕ → Json) → TaskInstance → Result Json → Exec RawMessage
  process_input key respond task (err e) w = released_with key task e w
  process_input key respond task (ok input) w =
      let response = document (respond task input w.clock) in
      after_complete key task response
        (complete_idempotent_task key task.idempotency_key task.id response w)

  unfoldable pub after_begin :
      String → (TaskInstance → Json → ℕ → Json) → TaskInstance → Begun → Exec RawMessage
  after_begin key respond task (replayed response) = pure response
  after_begin key respond task proceed =
      process_input key respond task (decode_input task.input_json)

  -- `Handle`; `has_store` is whether `idempotencyStore` is not nil.
  unfoldable pub handle_idempotently :
      String → String → Bool → (TaskInstance → Json → ℕ → Json) → TaskInstance → Exec RawMessage
  handle_idempotently key missing false respond task = raise (errors_new missing)
  handle_idempotently key missing true respond task = do
    begun ← begin_idempotent_task key task.idempotency_key task.id
    after_begin key respond task begun

  -- `json.Marshal` of a map writes the keys in order.
  abbrev pub sample_response : TaskInstance → Json → ℕ → Json
  sample_response task input clock = obj (
      field "echo" input (
        field "handler" (str "sample.echo")
          (field "processed_at" (str (lib.rfc3339 clock)) (field "task_id" (str task.id) end))))

  unfoldable pub sample_echo_handler : Bool → Handler
  sample_echo_handler has_store = record {
    key = "sample.echo";
    handle =
        handle_idempotently "sample.echo" "sample handler idempotency store is required" has_store
          sample_response;
  }

  abbrev pub notification_response : TaskInstance → Json → ℕ → Json
  notification_response task input clock = obj (
      field "handler" (str "notifications.send") (
        field "notification_id" (str task.idempotency_key) (
          field "payload" input
            (field "sent_at" (str (lib.rfc3339 clock)) (field "task_id" (str task.id) end)))))

  unfoldable pub notification_send_handler : Bool → Handler
  notification_send_handler has_store = record {
    key = "notifications.send";
    handle =
        handle_idempotently "notifications.send"
          "notification handler idempotency store is required" has_store notification_response;
  }
