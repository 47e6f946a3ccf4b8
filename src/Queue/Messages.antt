-- ===== src/Queue/Messages.antt =====
-- `queue.TaskMessage` of internal/queue/redis_streams.go as JSON, and the entries of the stream.
use durable_work_flow_engine.Prelude.{
  ℕ, String, ◌==◌, Option, none, some, List, [], ◌∷◌, if◌then◌else◌,
}
use durable_work_flow_engine.Domain.{
  RawMessage, document, Json, str, obj, end, field, Result, ok, err, errors_new, wrap_error, ◌>>=◌,
  TaskMessage, StreamEntry, same_name, unmarshal_string, unmarshal_struct,
}

-- `json.Marshal` of a message; that of three texts does not fail.
unfoldable pub marshal_message : TaskMessage → Json
marshal_message m = obj (
    field "task_id" (str m.task_id)
      (field "execution_id" (str m.execution_id) (field "handler_key" (str m.handler_key) end)))

unmarshal_message_field : String → Json → TaskMessage → Result TaskMessage
unmarshal_message_field key v m =
    if same_name key "task_id"
    then (do s ← unmarshal_string v m.task_id; ok (record m { task_id = s }))
    else if same_name key "execution_id"
    then (do s ← unmarshal_string v m.execution_id; ok (record m { execution_id = s }))
    else if same_name key "handler_key"
    then (do s ← unmarshal_string v m.handler_key; ok (record m { handler_key = s }))
    else ok m

abbrev zero_message : TaskMessage
zero_message = record { task_id = ""; execution_id = ""; handler_key = "" }

unfoldable pub unmarshal_message : RawMessage → Result TaskMessage
unfolding unmarshal_struct unmarshal_message_field unmarshal_string same_name
unmarshal_message raw = unmarshal_struct unmarshal_message_field zero_message raw

-- The values of `XADD` in `DispatchTask`.
abbrev pub entry_of : ℕ → TaskMessage → StreamEntry
entry_of id message = record {
  id = id;
  values = ("payload", document (marshal_message message)) ∷ [];
}

-- `message.Values[key]`, where the client keeps the last one of two values of a name.
unfoldable pub value_of : String → List (String × RawMessage) → Option RawMessage
value_of key [] = none
value_of key (x ∷ xs) = or_else (value_of key xs) (if x.0 == key then some x.1 else none)
  where
    or_else : Option RawMessage → Option RawMessage → Option RawMessage
    or_else none y = y
    or_else (some v) y = some v

-- The numbers of the ids are left out of the error texts.
decode_payload : Option RawMessage → Result TaskMessage
decode_payload none = err (errors_new "stream message missing payload")
decode_payload (some raw) = wrap_error "decode stream message" (unmarshal_message raw)

-- A value that Redis stores is a text, so `fmt.Sprint` is not reached.
unfoldable pub decode_task_message : StreamEntry → Result TaskMessage
unfolding decode_payload value_of
decode_task_message entry = decode_payload (value_of "payload" entry.values)
