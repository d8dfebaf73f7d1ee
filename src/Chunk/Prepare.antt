-- ===== src/Chunk/Prepare.antt =====
-- chunk_normalize.go, toolsy.go (Chunk.ToolEnvelope), outcome.go (executionErrorFromChunk): the
-- normalisation and the checks before a chunk is delivered.
use toolsy.Prelude.{
  Bool, true, false, not, ◌&&◌, ◌||◌, Option, none, some, [], ◌∷◌, if◌then◌else◌, str_eq,
}
use toolsy.Errors.{
  GoError, Text, lit, quoted, message, wrap, ToolError, is_blank, code_internal, to_error,
  new_internal_error, Result, ok, err,
}
use toolsy.Chunk.{
  Codec, Payload, raw, wire, no_data, Chunk, EventType, no_event, progress, result, control,
  other_event, event_text, ToolEnvelope, new_error_envelope, new_result_envelope, mime_text,
  mime_tool_error_json,
}
use toolsy.Chunk.Wire.{unmarshal_tool_error_wire, new_error_chunk_from_err}

-- An error of this package, internal and with the text as its cause.
abbrev pub contract_error : Text → GoError
contract_error t = to_error (new_internal_error (message t))

-- json.Valid of a payload; what `json.Marshal` wrote is valid.
abbrev pub payload_valid : Codec → Payload → Bool
payload_valid c (raw bs) = c.json_valid bs
payload_valid c (wire w) = true

unfoldable pub validate_error_chunk : Codec → Chunk → Option GoError
validate_error_chunk c k =
    if no_data k.payload
    then some (contract_error (lit "toolsy: error chunks must include payload in Data" ∷ []))
    else if str_eq k.mime_type mime_tool_error_json
    then (if payload_valid c k.payload
        then none
        else some (contract_error (lit "toolsy: tool error chunks must contain valid JSON" ∷ [])))
    else some (
        contract_error
          (lit "toolsy: error chunks require mime type " ∷ quoted mime_tool_error_json ∷ []))

-- The checks of a chunk that is no control chunk.
unfoldable pub validate_data : Codec → Chunk → Option GoError
unfolding validate_error_chunk
validate_data c k =
    if k.is_error
    then validate_error_chunk c k
    else if not (no_data k.payload) && str_eq k.mime_type ""
    then some (
        contract_error (
          lit "toolsy: chunk data requires mime type for event "
          ∷ quoted (event_text k.event)
          ∷ []))
    else if no_data k.payload && not (str_eq k.mime_type "")
    then some (contract_error (lit "toolsy: chunk mime type without data is invalid" ∷ []))
    else none

abbrev validate_event : Codec → Chunk → EventType → Option GoError
validate_event c k no_event = some (contract_error (lit "toolsy: chunk event is required" ∷ []))
validate_event c k (other_event s) =
    some (contract_error (lit "toolsy: unsupported chunk event " ∷ quoted s ∷ []))
validate_event c k control = elim k.control_signal [
  | none ↦ some (contract_error (lit "toolsy: control chunk requires typed Control signal" ∷ []))
  | some s ↦ none
]
validate_event c k progress = validate_data c k
validate_event c k result = validate_data c k

-- validateChunk
unfoldable pub validate_chunk : Codec → Chunk → Option GoError
unfolding validate_data
validate_chunk c k = validate_event c k k.event

unfoldable pub malformed_error_chunk_detail : Codec → Chunk → Text
malformed_error_chunk_detail c k =
    if str_eq k.mime_type mime_text && not (no_data k.payload)
    then c.trimmed_text k.payload
    else if not (str_eq k.mime_type "")
    then lit "unsupported mime type " ∷ quoted k.mime_type ∷ []
    else if not (no_data k.payload)
    then c.trimmed_text k.payload
    else []

-- The error that stands for an error chunk without a tool error payload.
unfoldable pub malformed_error : Codec → Chunk → GoError
malformed_error c k =
    let detail = malformed_error_chunk_detail c k in
    let reason : Text =
      lit "tool returned malformed error chunk: expected "
      ∷ lit mime_tool_error_json
      ∷ (if is_blank detail then [] else lit "; " ∷ detail) in
    GoError.tool
      (record {
        code = code_internal;
        retryable = false;
        reason = reason;
        fixable_args = [];
        safe_message = [];
      })
      (message reason)

unfoldable pub normalize_error_chunk : Codec → Chunk → Chunk
normalize_error_chunk c k =
    if not k.is_error || str_eq k.mime_type mime_tool_error_json
    then k
    else new_error_chunk_from_err c (malformed_error c k)

-- The error that a chunk carries.
unfoldable pub execution_error_from_chunk : Codec → Chunk → ToolError
execution_error_from_chunk c k =
    let n = if k.is_error then normalize_error_chunk c k else k in
    if str_eq n.mime_type mime_tool_error_json
    then elim (unmarshal_tool_error_wire c n.payload) [
      | err e ↦ new_internal_error (wrap (lit "toolsy: corrupt tool error envelope" ∷ []) e)
      | ok te ↦ te
    ]
    else new_internal_error (message (lit "tool returned empty error chunk" ∷ []))

-- Chunk.ToolEnvelope
unfoldable pub tool_envelope : Codec → Chunk → ToolEnvelope
unfolding new_error_envelope new_result_envelope
tool_envelope c k = elim k.envelope [
  | some e ↦ e
  | none ↦
      if k.is_error
      then new_error_envelope (some (execution_error_from_chunk c k)) k.payload k.mime_type none
          none []
      else new_result_envelope c k.typed_result k.payload k.mime_type none none []
]

abbrev is_result : EventType → Bool
is_result result = true
is_result _ = false

-- The envelope of a chunk that passed its checks: its own, or for a result the default one.
unfoldable pub with_envelope : Codec → Chunk → Chunk
with_envelope c k = elim k.envelope [
  | some e ↦ k
  | none ↦ if is_result k.event then record k { envelope = some (tool_envelope c k) } else k
]

-- prepareChunk
unfoldable pub prepare_chunk : Codec → Chunk → Result Chunk
unfolding validate_chunk with_envelope
prepare_chunk c k =
    let n = if k.is_error then normalize_error_chunk c k else k in
    elim (validate_chunk c n) [ some e ↦ err e | none ↦ ok (with_envelope c n) ]
