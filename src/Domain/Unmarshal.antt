-- ===== src/Domain/Unmarshal.antt =====
-- `json.Unmarshal` into a string, an `int` and the dispatch payload. A field is matched by its name
-- up to case folding; an absent field or `null` leaves the value that the variable has; a value of
-- another type is an error. Where an object has a field twice, the later one counts.
use Prim.Native.Char.{code}
use durable_work_flow_engine.Prelude.{
  ℕ, ◌+◌, ◌^◌, ◌≡◌, refl, String, Bool, true, false, ◌&&◌, ltb, leb, nat_eq, if◌then◌else◌, ℤ, pos,
  negsuc,
}
use durable_work_flow_engine.Domain.Documents.{
  RawMessage, empty, malformed, document, Json, null, num, str, obj, Fields, end, field, integer,
}
use durable_work_flow_engine.Domain.Errors.{Result, ok, err, external, ◌>>=◌}
use durable_work_flow_engine.Domain.Models.{DispatchTaskPayload}

-- Unicode simple folding, as far as it reaches the letters of ASCII.
fold_code : ℕ → ℕ
fold_code c =
    if leb b'A' c && leb c b'Z'
    then c + 32
    else if nat_eq c 0x17f
    then b's'
    else if nat_eq c 0x212a
    then b'k'
    else c

unfoldable pub same_name : String → String → Bool
unfolding fold_code
same_name String.[] String.[] = true
same_name String.[] (String.◌∷◌ d t) = false
same_name (String.◌∷◌ c s) String.[] = false
same_name (String.◌∷◌ c s) (String.◌∷◌ d t) =
    nat_eq (fold_code (code c)) (fold_code (code d)) && same_name s t

abbrev pub type_error {ℓ} : {A : Type ℓ} → Result A
type_error = err (external "json: cannot unmarshal value into Go value")

-- Each takes the value that the variable has.
unfoldable pub unmarshal_string : Json → String → Result String
unmarshal_string null old = ok old
unmarshal_string (str s) old = ok s
unmarshal_string _ old = type_error

unfoldable pub unmarshal_int : Json → ℤ → Result ℤ
unmarshal_int null old = ok old
unmarshal_int (num (integer (pos n))) old = if ltb n (2 ^ 63) then ok (pos n) else type_error
unmarshal_int (num (integer (negsuc n))) old = if ltb n (2 ^ 63) then ok (negsuc n) else type_error
unmarshal_int _ old = type_error

abbrev pub unexpected_end {ℓ} : {A : Type ℓ} → Result A
unexpected_end = err (external "unexpected end of JSON input")

abbrev pub syntax_error {ℓ} : {A : Type ℓ} → Result A
syntax_error = err (external "invalid character in JSON")

-- A struct: `step` takes one field of the document into the value that was read so far.
module _ {A : Type 0} (step : String → Json → A → Result A) where
  unmarshal_fields : Fields → A → Result A
  unmarshal_fields end a = ok a
  unmarshal_fields (field key v rest) a = do a' ← step key v a; unmarshal_fields rest a'

  unfoldable pub unmarshal_object : A → Json → Result A
  unfolding unmarshal_fields
  unmarshal_object zero_value null = ok zero_value
  unmarshal_object zero_value (obj fs) = unmarshal_fields fs zero_value
  unmarshal_object zero_value _ = type_error

  unfoldable pub unmarshal_struct : A → RawMessage → Result A
  unfolding unmarshal_object
  unmarshal_struct zero_value empty = unexpected_end
  unmarshal_struct zero_value (malformed text) = syntax_error
  unmarshal_struct zero_value (document j) = unmarshal_object zero_value j

unmarshal_payload_field : String → Json → DispatchTaskPayload → Result DispatchTaskPayload
unmarshal_payload_field key v p =
    if same_name key "task_id"
    then (do s ← unmarshal_string v p.task_id; ok (record p { task_id = s }))
    else if same_name key "execution_id"
    then (do s ← unmarshal_string v p.execution_id; ok (record p { execution_id = s }))
    else if same_name key "handler_key"
    then (do s ← unmarshal_string v p.handler_key; ok (record p { handler_key = s }))
    else ok p

abbrev zero_payload : DispatchTaskPayload
zero_payload = record { task_id = ""; execution_id = ""; handler_key = "" }

unfoldable pub unmarshal_payload : RawMessage → Result DispatchTaskPayload
unfolding unmarshal_struct unmarshal_payload_field unmarshal_string same_name
unmarshal_payload raw = unmarshal_struct unmarshal_payload_field zero_payload raw

-- `json.Marshal` of the payload.
unfoldable pub marshal_payload : DispatchTaskPayload → Json
marshal_payload p = obj (
    field "task_id" (str p.task_id)
      (field "execution_id" (str p.execution_id) (field "handler_key" (str p.handler_key) end)))

-- What is written into the outbox is read back unchanged.
pub unmarshal-marshal_payload :
    (p : DispatchTaskPayload) → unmarshal_payload (document (marshal_payload p)) ≡ ok p
unfolding unmarshal_payload marshal_payload
unmarshal-marshal_payload p = refl
