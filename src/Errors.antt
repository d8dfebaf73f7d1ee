-- ===== src/Errors.antt =====
-- errors.go, policy.go (error constructors), control.go (control errors): Go error values and
-- their unwrap chains.
--
-- An error is a sentinel, a text, an error that wraps one or two others (`%w`), or a `*ToolError`.
-- A formatted text is the list of its pieces, so that equal formats are equal values.
mod Kinds
mod Returns
pub mod Chains
pub mod Decoding
pub use Kinds.*
pub use Returns.*
use toolsy.Prelude.{
  String, Bool, true, false, ◌||◌, Option, none, some, List, [], ◌∷◌, ◌++◌, str_eq, if◌then◌else◌,
}

-- `errors.Is` for a sentinel target, which walks the chain.
unfoldable pub is : GoError → Sentinel → Bool
is (sentinel s) t = same_sentinel s t
is (message m) t = false
is (wrap m e) t = is e t
is (wrap_before e m) t = is e t
is (wrap_both e f) t = is e t || is f t
is (bare_tool i) t = false
is (tool i e) t = is e t

-- `errors.As` for a `*ToolError` target: the first in the chain.
unfoldable pub as_tool_error : GoError → Option ToolError
as_tool_error (sentinel s) = none
as_tool_error (message m) = none
as_tool_error (wrap m e) = as_tool_error e
as_tool_error (wrap_before e m) = as_tool_error e
as_tool_error (wrap_both e f) =
    let rest = as_tool_error f in elim (as_tool_error e) [ some te ↦ some te | none ↦ rest ]
as_tool_error (bare_tool i) = some (record { info = i; err = none })
as_tool_error (tool i e) = some (record { info = i; err = some e })

-- `Error()` of a ToolError: the code, and the reason or else the safe message.
abbrev tool_text : ToolInfo → Text
tool_text i =
    if is_blank i.reason
    then (if is_blank i.safe_message
        then lit (code_text i.code) ∷ []
        else lit (code_text i.code) ∷ lit ": " ∷ i.safe_message)
    else lit (code_text i.code) ∷ lit ": " ∷ i.reason

unfoldable pub error_text : GoError → Text
error_text (sentinel s) = lit (sentinel_text s) ∷ []
error_text (message m) = m
error_text (wrap m e) = m ++ lit ": " ∷ error_text e
error_text (wrap_before e m) = error_text e ++ lit " " ∷ m
error_text (wrap_both e f) = error_text e ++ lit ": " ∷ error_text f
error_text (bare_tool i) = tool_text i
error_text (tool i e) = tool_text i

unfoldable pub is_context_interrupt : GoError → Bool
is_context_interrupt e = is e canceled || is e deadline_exceeded || is e timeout

unfoldable pub is_control_error : GoError → Bool
is_control_error e = is e pause || is e yield || is e halt || is e ui_action

unfoldable pub client_correctable_code : ErrorCode → Bool
client_correctable_code code_validation_failed = true
client_correctable_code code_schema_invalid = true
client_correctable_code code_tool_not_found = true
client_correctable_code _ = false

unfoldable pub orchestrator_system_code : ErrorCode → Bool
orchestrator_system_code code_internal = true
orchestrator_system_code code_timeout = true
orchestrator_system_code code_shutdown = true
orchestrator_system_code code_max_steps_exceeded = true
orchestrator_system_code code_registry_not_ready = true
orchestrator_system_code code_state_codec_missing = true
orchestrator_system_code _ = false

unfoldable pub client_correctable : GoError → Bool
unfolding as_tool_error client_correctable_code
client_correctable e = elim (as_tool_error e) [
  | none ↦ false
  | some te ↦ client_correctable_code te.code
]

-- A ToolError that is not retryable and has no safe message.
abbrev pub plain_error : ErrorCode → Text → List String → GoError → ToolError
plain_error c r args e = record {
  info = record { code = c; retryable = false; reason = r; fixable_args = args; safe_message = [] };
  err = some e;
}

-- One whose reason and cause are the sentinel.
abbrev sentinel_error : ErrorCode → Sentinel → ToolError
sentinel_error c s = plain_error c (lit (sentinel_text s) ∷ []) [] (sentinel s)

abbrev pub new_validation_error : Text → List String → ToolError
new_validation_error r args = plain_error code_validation_failed r args (sentinel validation)

abbrev pub new_internal_error : GoError → ToolError
new_internal_error e = plain_error code_internal (lit "internal error" ∷ []) [] e

abbrev pub new_dependency_missing_error : String → ToolError
new_dependency_missing_error key =
    let r : Text = lit "dependency " ∷ quoted key ∷ lit " is missing or nil" ∷ [] in
    plain_error code_dependency_missing r [] (message r)

abbrev pub new_tool_not_found_error : ToolError
new_tool_not_found_error = sentinel_error code_tool_not_found tool_not_found

abbrev pub new_tool_not_found_in_subset_error : String → ToolError
new_tool_not_found_in_subset_error name =
    plain_error code_tool_not_found (lit "unknown tool in subset: " ∷ quoted name ∷ []) []
      (sentinel tool_not_found)

abbrev pub new_timeout_error_from : GoError → Bool → ToolError
new_timeout_error_from c r = record {
  info = record {
    code = code_timeout;
    retryable = r;
    reason = lit (sentinel_text timeout) ∷ [];
    fixable_args = [];
    safe_message = [];
  };
  err = some (wrap_both (sentinel timeout) c);
}

abbrev pub new_shutdown_error : ToolError
new_shutdown_error = sentinel_error code_shutdown shutdown

abbrev pub new_max_steps_exceeded_error : ToolError
new_max_steps_exceeded_error = sentinel_error code_max_steps_exceeded max_steps_exceeded

abbrev pub new_registry_state_error : ToolError
new_registry_state_error = sentinel_error code_registry_not_ready registry_state

abbrev pub new_tools_contract_missing_error : List String → List String → ToolError
new_tools_contract_missing_error required missing =
    let r : Text =
      lit "missing required tools: "
      ∷ names missing
      ∷ lit " (contract requires "
      ∷ names required
      ∷ lit ")"
      ∷ [] in
    plain_error code_tools_contract_missing r missing (message r)

abbrev pub new_policy_denied_error : Text → List String → ToolError
new_policy_denied_error r args =
    plain_error code_policy_denied
      (if is_blank r then lit (sentinel_text policy_denied) ∷ [] else r) args
      (sentinel policy_denied)

abbrev pub new_policy_denied_error_from : GoError → ToolError
new_policy_denied_error_from e =
    plain_error code_policy_denied (error_text e) [] (wrap_both (sentinel policy_denied) e)

abbrev pub new_capability_denied_error : String → String → ToolError
new_capability_denied_error tool_name view_id =
    plain_error code_capability_denied
      ((if str_eq tool_name ""
          then lit "tool is not available in the active capability view" ∷ []
          else lit "tool "
            ∷ lit tool_name
            ∷ lit " is not available in the active capability view"
            ∷ [])
        ++ (if str_eq view_id "" then [] else lit " " ∷ lit view_id ∷ []))
      ("tool_name" ∷ []) (sentinel capability_denied)

-- `reason` is a text after `strings.TrimSpace`.
abbrev pub new_budget_exceeded_error : Text → ToolError
new_budget_exceeded_error r = record {
  info = record {
    code = code_budget_exceeded;
    retryable = true;
    reason = if is_blank r then lit (sentinel_text budget_exceeded) ∷ [] else r;
    fixable_args = [];
    safe_message = [];
  };
  err = some (sentinel budget_exceeded);
}

-- The error that a caller's `yield` returned, marked as a stream abort.
abbrev pub wrap_yield_error : GoError → GoError
wrap_yield_error e = wrap_both (sentinel stream_aborted) e
