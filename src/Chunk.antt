-- ===== src/Chunk.antt =====
-- toolsy.go (Chunk), control.go, envelope.go, tool_error_wire.go, chunk_normalize.go: what a tool
-- streams, and the wire contract that a chunk meets before it is delivered.
--
-- A host value (`any`) is a number that names it. The bytes of a payload are given as numbers, or
-- as what `json.Marshal` makes of a tool error: a record of what its text says, with each text as it is
-- written, from which the parser gets the record back; what the
-- standard library says of other bytes and of MIME types, and the wording of messages for the
-- model, is a `Codec`.
pub mod Wire
pub mod Prepare
pub mod Control
pub mod Contract
pub mod RoundTrip
mod Tests
use mathlib.Core.Option
use toolsy.Prelude.{
  ℕ, zero, suc, ◌+◌, String, Bool, true, false, not, ◌&&◌, ◌||◌, Option, none, some, List, [], ◌∷◌,
  ◌++◌, length, is_empty, ltb, ◌==◌, str_eq, if◌then◌else◌,
}
use toolsy.Errors.{GoError, Text, ErrorCode, ToolError}

pub data EventType : Type 0 where
  no_event progress result control : EventType
  other_event : String → EventType

pub data ControlSignal : Type 0 where
  pause_signal yield_signal halt_signal : String → ControlSignal
  ui_action_signal : String → List ℕ → ControlSignal

abbrev pub event_text : EventType → String
event_text no_event = ""
event_text progress = "progress"
event_text result = "result"
event_text control = "control"
event_text (other_event s) = s

-- `toolErrorWire`
pub record ToolErrorWire : Type 0 where
  pub code : ErrorCode
  pub retryable : Bool
  pub reason : Text
  pub fixable_args : List String
  pub safe_message : Text
  pub message : Text

pub data Payload : Type 0 where
  raw : List ℕ → Payload
  wire : ToolErrorWire → Payload

-- What the standard library says of bytes and MIME types that the model does not look into.
pub record Codec : Type 0 where
  -- json.Valid
  pub json_valid : List ℕ → Bool
  -- json.Unmarshal into a toolErrorWire
  pub parse_wire : List ℕ → Option ToolErrorWire
  -- what json.Marshal writes of a text: each byte that is not UTF-8 becomes U+FFFD
  pub valid_text : Text → Text
  -- the length of json.Marshal of a toolErrorWire, less one
  pub wire_size : ToolErrorWire → ℕ
  -- strings.TrimSpace of a text payload
  pub trimmed_text : Payload → Text
  -- textLikeMimeType, on the media type that mime.ParseMediaType finds
  pub text_like : String → Bool
  -- the message for the model (errorChunkLLMMessage) and the text of a read limit
  pub llm_message : ToolError → GoError → Text
  pub read_limit_text : GoError → Text

abbrev pub payload_len : Codec → Payload → ℕ
payload_len c (raw bs) = length bs
payload_len c (wire w) = suc (c.wire_size w)

-- `len(data) == 0`
abbrev pub no_data : Payload → Bool
no_data (raw bs) = is_empty bs
no_data (wire w) = false

abbrev pub mime_text : String
mime_text = "text/plain; charset=utf-8"

abbrev pub mime_json : String
mime_json = "application/json"

abbrev pub mime_tool_error_json : String
mime_tool_error_json = "application/vnd.toolsy.tool-error+json"

pub data EnvelopeKind : Type 0 where
  result_kind error_kind : EnvelopeKind

pub data DeliveryClass : Type 0 where
  structured text : DeliveryClass

pub data Audience : Type 0 where
  model user internal : Audience

pub record ToolEnvelope : Type 0 where
  pub kind : EnvelopeKind
  pub error : Option ToolError
  pub delivery_class : DeliveryClass
  pub audience : Audience
  pub raw_bytes : Payload
  pub mime_type : String
  pub host_result : Option ℕ
  pub metadata : List (String × ℕ)

pub record ProgressInfo : Type 0 where
  pub percent : Option ℕ
  pub total : Option ℕ
  pub message : String
  pub label : String
  pub status : String
  pub token : String

pub record Chunk : Type 0 where
  pub call_id : String
  pub tool_name : String
  pub event : EventType
  pub payload : Payload
  pub mime_type : String
  pub is_error : Bool
  pub typed_result : Option ℕ
  pub empty_result : Bool
  pub noop : Bool
  pub effects : List ℕ
  pub controls : List ControlSignal
  pub control_signal : Option ControlSignal
  pub progress_info : Option ProgressInfo
  pub envelope : Option ToolEnvelope

-- `Chunk{}`
abbrev pub empty_chunk : Chunk
empty_chunk = record {
  call_id = "";
  tool_name = "";
  event = no_event;
  payload = raw [];
  mime_type = "";
  is_error = false;
  typed_result = none;
  empty_result = false;
  noop = false;
  effects = [];
  controls = [];
  control_signal = none;
  progress_info = none;
  envelope = none;
}

-- The delivery class and the audience are given, or have their defaults.
unfoldable pub new_result_envelope :
    Codec
    → Option ℕ
    → Payload
    → String
    → Option DeliveryClass
    → Option Audience
    → List (String × ℕ)
    → ToolEnvelope
new_result_envelope c res bs mime class audience meta = record {
  kind = result_kind;
  error = none;
  delivery_class = elim class [ some d ↦ d | none ↦ if c.text_like mime then text else structured ];
  audience = elim audience [ some a ↦ a | none ↦ model ];
  raw_bytes = bs;
  mime_type = mime;
  host_result = res;
  metadata = meta;
}

unfoldable pub new_error_envelope :
    Option ToolError
    → Payload
    → String
    → Option DeliveryClass
    → Option Audience
    → List (String × ℕ)
    → ToolEnvelope
new_error_envelope e bs mime class audience meta = record {
  kind = error_kind;
  error = e;
  delivery_class = elim class [ some d ↦ d | none ↦ structured ];
  audience = elim audience [ some a ↦ a | none ↦ model ];
  raw_bytes = bs;
  mime_type = mime;
  host_result = none;
  metadata = meta;
}
