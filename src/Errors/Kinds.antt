-- ===== src/Errors/Kinds.antt =====
-- errors.go, policy.go, control.go: sentinels, codes and the two shapes of an error value.
use toolsy.Prelude.{ℕ, String, Bool, true, false, Option, none, some, List, [], ◌∷◌, ◌==◌}

-- The package-level `errors.New` values, with the three of `context` and `exectool` met here.
pub data Sentinel : Type 0 where
  tool_not_found timeout validation shutdown registry_state stream_aborted max_steps_exceeded :
      Sentinel
  async_collected_limit_exceeded budget_exceeded policy_denied capability_denied : Sentinel
  pause yield halt ui_action : Sentinel
  canceled deadline_exceeded read_limit_exceeded sandbox_failure sandbox_timeout : Sentinel
  unsupported_language : Sentinel

-- Sentinels are compared by identity.
abbrev sentinel_id : Sentinel → ℕ
sentinel_id tool_not_found = 0
sentinel_id timeout = 1
sentinel_id validation = 2
sentinel_id shutdown = 3
sentinel_id registry_state = 4
sentinel_id stream_aborted = 5
sentinel_id max_steps_exceeded = 6
sentinel_id async_collected_limit_exceeded = 7
sentinel_id budget_exceeded = 8
sentinel_id policy_denied = 9
sentinel_id capability_denied = 10
sentinel_id pause = 11
sentinel_id yield = 12
sentinel_id halt = 13
sentinel_id ui_action = 14
sentinel_id canceled = 15
sentinel_id deadline_exceeded = 16
sentinel_id read_limit_exceeded = 17
sentinel_id sandbox_failure = 18
sentinel_id sandbox_timeout = 19
sentinel_id unsupported_language = 20

abbrev pub same_sentinel : Sentinel → Sentinel → Bool
same_sentinel s t = sentinel_id s == sentinel_id t

-- `Error()` of a sentinel.
abbrev pub sentinel_text : Sentinel → String
sentinel_text tool_not_found = "tool not found"
sentinel_text timeout = "tool execution timeout"
sentinel_text validation = "validation failed"
sentinel_text shutdown = "registry is shutting down"
sentinel_text registry_state = "registry runtime state is not initialized"
sentinel_text stream_aborted = "stream aborted by caller"
sentinel_text max_steps_exceeded = "max execution steps exceeded"
sentinel_text async_collected_limit_exceeded = "toolsy: async collected chunks limit exceeded"
sentinel_text budget_exceeded = "budget exceeded"
sentinel_text policy_denied = "policy denied"
sentinel_text capability_denied = "capability denied"
sentinel_text pause = "toolsy: control pause"
sentinel_text yield = "toolsy: control yield"
sentinel_text halt = "toolsy: control halt"
sentinel_text ui_action = "toolsy: control ui action"
sentinel_text canceled = "context canceled"
sentinel_text deadline_exceeded = "context deadline exceeded"
sentinel_text read_limit_exceeded = "read operation exceeded configured byte limit"
sentinel_text sandbox_failure = "sandbox internal failure"
sentinel_text sandbox_timeout = "execution timed out"
sentinel_text unsupported_language = "unsupported language for this sandbox"

-- `ErrorCode` is a string: the empty one, the constants, and any other.
pub data ErrorCode : Type 0 where
  code_empty code_schema_invalid code_validation_failed code_timeout code_tool_not_found : ErrorCode
  code_dependency_missing code_internal code_shutdown code_max_steps_exceeded : ErrorCode
  code_registry_not_ready code_tools_contract_missing code_budget_exceeded : ErrorCode
  code_state_codec_missing code_policy_denied code_capability_denied : ErrorCode
  code_other : String → ErrorCode

abbrev pub code_text : ErrorCode → String
code_text code_empty = ""
code_text code_schema_invalid = "SCHEMA_INVALID"
code_text code_validation_failed = "VALIDATION_FAILED"
code_text code_timeout = "TIMEOUT"
code_text code_tool_not_found = "TOOL_NOT_FOUND"
code_text code_dependency_missing = "DEPENDENCY_MISSING"
code_text code_internal = "INTERNAL"
code_text code_shutdown = "SHUTDOWN"
code_text code_max_steps_exceeded = "MAX_STEPS_EXCEEDED"
code_text code_registry_not_ready = "REGISTRY_NOT_READY"
code_text code_tools_contract_missing = "TOOLS_CONTRACT_MISSING"
code_text code_budget_exceeded = "BUDGET_EXCEEDED"
code_text code_state_codec_missing = "STATE_CODEC_MISSING"
code_text code_policy_denied = "POLICY_DENIED"
code_text code_capability_denied = "CAPABILITY_DENIED"
code_text (code_other s) = s

-- A formatted text: literal text, a `%q`, a `%v` of a list of names, a `%d`, and text given as bytes.
pub data Piece : Type 0 where
  lit : String → Piece
  quoted : String → Piece
  names : List String → Piece
  amount : ℕ → Piece
  spelled : List ℕ → Piece

abbrev pub Text : Type 0
Text = List Piece

-- `text == ""`
abbrev pub is_blank : Text → Bool
is_blank [] = true
is_blank (p ∷ ps) = false

pub record ToolInfo : Type 0 where
  pub code : ErrorCode
  pub retryable : Bool
  pub reason : Text
  pub fixable_args : List String
  pub safe_message : Text

-- A sentinel, a text, a wrapped error (`%w`) after or before a text, two of them, a `*ToolError` with `Err` nil or set.
pub data GoError : Type 0 where
  sentinel : Sentinel → GoError
  message : Text → GoError
  wrap : Text → GoError → GoError
  wrap_before : GoError → Text → GoError
  wrap_both : GoError → GoError → GoError
  bare_tool : ToolInfo → GoError
  tool : ToolInfo → GoError → GoError

pub record ToolError : Type 0 where
  pub info : ToolInfo
  pub open info use *
  pub err : Option GoError

-- A non-nil `*ToolError` as an `error`.
abbrev with_cause : ToolInfo → Option GoError → GoError
with_cause i none = bare_tool i
with_cause i (some e) = tool i e

abbrev pub to_error : ToolError → GoError
to_error te = with_cause te.info te.err
