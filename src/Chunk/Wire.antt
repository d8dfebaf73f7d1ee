-- ===== src/Chunk/Wire.antt =====
-- tool_error_wire.go, middleware_error_formatter.go (NewErrorChunkFromErr and what it calls): a tool
-- error as the payload of an error chunk, and back.
use toolsy.Prelude.{Bool, true, false, ◌||◌, Option, none, some, [], ◌∷◌, if◌then◌else◌}
use toolsy.Errors.{
  GoError, Text, lit, message, wrap, sentinel, Sentinel, ErrorCode, code_empty, code_internal,
  code_validation_failed, code_tool_not_found, code_timeout, code_shutdown, code_max_steps_exceeded,
  code_registry_not_ready, code_budget_exceeded, code_schema_invalid, ToolError, is_blank,
  validation, tool_not_found, timeout, shutdown, max_steps_exceeded, registry_state,
  budget_exceeded, canceled, deadline_exceeded, read_limit_exceeded, as_tool_error,
  new_internal_error, new_validation_error, new_timeout_error_from, Result, ok, err, is,
  is_context_interrupt,
}
use toolsy.Chunk.{
  Codec, Payload, raw, wire, ToolErrorWire, Chunk, empty_chunk, result, mime_tool_error_json,
  new_error_envelope, structured, model,
}

-- `sentinelForErrorCode`
abbrev pub sentinel_for_error_code : ErrorCode → Option Sentinel
sentinel_for_error_code code_validation_failed = some validation
sentinel_for_error_code code_tool_not_found = some tool_not_found
sentinel_for_error_code code_timeout = some timeout
sentinel_for_error_code code_shutdown = some shutdown
sentinel_for_error_code code_max_steps_exceeded = some max_steps_exceeded
sentinel_for_error_code code_registry_not_ready = some registry_state
sentinel_for_error_code code_budget_exceeded = some budget_exceeded
sentinel_for_error_code code_schema_invalid = some validation
sentinel_for_error_code _ = none

abbrev is_no_code : ErrorCode → Bool
is_no_code code_empty = true
is_no_code _ = false

-- `marshalToolErrorWire` of a non-nil error; `json.Marshal` of the wire does not fail. Codes, tool names
-- and arguments are strings of characters, which are written as they are.
unfoldable pub marshal_tool_error_wire : Codec → ToolError → Text → Payload
marshal_tool_error_wire c te llm = wire (record {
  code = te.code;
  retryable = te.retryable;
  reason = c.valid_text te.reason;
  fixable_args = te.fixable_args;
  safe_message = c.valid_text te.safe_message;
  message = c.valid_text llm;
})

-- The cause that a wire gives back: the code's sentinel, or else the message, or the reason.
abbrev restored_cause : ToolErrorWire → Option Sentinel → Option GoError
restored_cause w (some s) = some (sentinel s)
restored_cause w none =
    if is_blank w.message
    then (if is_blank w.reason then none else some (GoError.message w.reason))
    else some (GoError.message w.message)

unfoldable pub restore : ToolErrorWire → Result ToolError
restore w =
    if is_no_code w.code
    then err (message (lit "toolsy: tool error wire missing code" ∷ []))
    else ok (record {
      info = record {
        code = w.code;
        retryable = w.retryable;
        reason = w.reason;
        fixable_args = w.fixable_args;
        safe_message = w.safe_message;
      };
      err = restored_cause w (sentinel_for_error_code w.code);
    })

unfoldable pub unmarshal_tool_error_wire : Codec → Payload → Result ToolError
unfolding restore
unmarshal_tool_error_wire c (wire w) = restore w
unmarshal_tool_error_wire c (raw bs) = elim (c.parse_wire bs) [
  | none ↦ err (message (lit "json: cannot unmarshal" ∷ []))
  | some w ↦ restore w
]

abbrev pub is_internal : ErrorCode → Bool
is_internal code_internal = true
is_internal _ = false

-- `isContextInterrupt(te.Err)`; a nil error is none.
abbrev pub cause_interrupts : Option GoError → Bool
cause_interrupts none = false
cause_interrupts (some e) = is_context_interrupt e

-- An internal error that hides an interrupt gives the interrupt.
abbrev pub unwrap_found : GoError → Option ToolError → GoError
unwrap_found e none = e
unwrap_found e (some te) =
    if is_internal te.code
    then elim te.err [ none ↦ e | some x ↦ if is_context_interrupt x then x else e ]
    else e

unfoldable pub unwrap_interrupt_err : GoError → GoError
unwrap_interrupt_err e = unwrap_found e (as_tool_error e)

-- Every branch of the mapping of read limits is a validation error.
unfoldable pub map_read_limit_for_wire : Codec → GoError → Option ToolError
map_read_limit_for_wire c e =
    if is e read_limit_exceeded then some (new_validation_error (c.read_limit_text e) []) else none

unfoldable pub tool_error_from_existing : Codec → ToolError → GoError → Option ToolError
tool_error_from_existing c te e =
    let x = unwrap_interrupt_err e in
    if is_context_interrupt x
    then (if is x deadline_exceeded || is x timeout
        then some (new_timeout_error_from x true)
        else none)
    else elim (map_read_limit_for_wire c x) [ some mapped ↦ some mapped | none ↦ some te ]

-- `toolErrorFromExecutionErr` of a non-nil error; `none` is the nil that a cancellation gives.
unfoldable pub tool_error_from_execution_err : Codec → GoError → Option ToolError
tool_error_from_execution_err c e =
    let x = unwrap_interrupt_err e in
    if is x canceled
    then none
    else if is x deadline_exceeded
    then some (new_timeout_error_from x true)
    else if is x timeout
    then some (new_timeout_error_from (sentinel timeout) true)
    else if is_context_interrupt x
    then none
    else elim (map_read_limit_for_wire c x) [
      | some te ↦ some te
      | none ↦ elim (as_tool_error x) [
        | some te ↦ tool_error_from_existing c te x
        | none ↦ some (new_internal_error x)
      ]
    ]

-- The error that a chunk reports where `toolErrorFromExecutionErr` gives nil.
unfoldable pub interrupt_tool_error : GoError → ToolError
interrupt_tool_error e =
    if is e deadline_exceeded
    then new_timeout_error_from e true
    else if is e canceled
    then new_internal_error (wrap (lit "execution canceled" ∷ []) e)
    else if is_context_interrupt e
    then new_internal_error (wrap (lit "execution canceled" ∷ []) e)
    else new_internal_error (message (lit "tool execution failed" ∷ []))

unfoldable pub reported_tool_error : Codec → GoError → ToolError
reported_tool_error c e = elim (tool_error_from_execution_err c e) [
  | some te ↦ te
  | none ↦ interrupt_tool_error e
]

unfoldable pub new_error_chunk_from_err : Codec → GoError → Chunk
unfolding marshal_tool_error_wire
new_error_chunk_from_err c e =
    let te = reported_tool_error c e in
    let bs = marshal_tool_error_wire c te (c.llm_message te e) in
    record empty_chunk {
      event = result;
      payload = bs;
      mime_type = mime_tool_error_json;
      is_error = true;
      envelope =
          some (
            new_error_envelope (some te) bs mime_tool_error_json (some structured) (some model) []);
    }
