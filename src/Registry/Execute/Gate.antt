-- ===== src/Registry/Execute/Gate.antt =====
-- registry.go (runToolWithValidationAndExecute, normalizeExecutionInterrupt): the checks before a tool runs,
-- and the error after it ran.
use toolsy.Prelude.{
  String, Bool, true, false, not, Option, none, some, [], ◌∷◌, ◌++◌, if◌then◌else◌,
}
use toolsy.Errors.{
  GoError, canceled, Text, lit, ErrorCode, code_timeout, ToolError, to_error, as_tool_error, is,
  is_context_interrupt, new_timeout_error_from, new_validation_error, new_policy_denied_error_from,
}
use toolsy.Tool.{Tool, ToolInput, RunEnv, manifest}
use toolsy.Policy.{
  PolicyRequest, enforce_requirements_policy, enforce_runtime_requirements, evaluate_policy,
}
use toolsy.Registry.{Registry, RegistryOptions}
use toolsy.Registry.Execute.Call.{ToolCall}

-- normalizeExecutionInterrupt
abbrev is_timeout_code : ErrorCode → Bool
is_timeout_code code_timeout = true
is_timeout_code _ = false

abbrev timed_out : Option ToolError → Bool
timed_out none = false
timed_out (some te) = is_timeout_code te.code

unfoldable pub normalize_execution_interrupt : Option GoError → Option GoError
normalize_execution_interrupt none = none
normalize_execution_interrupt (some e) =
    if is e canceled
    then some e
    else if not (is_context_interrupt e)
    then some e
    else if timed_out (as_tool_error e)
    then some e
    else some (to_error (new_timeout_error_from e true))

-- What an authorizer's error becomes.
abbrev authorization_error : GoError → Option ToolError → GoError
authorization_error e (some te) = e
authorization_error e none = to_error (new_policy_denied_error_from e)

abbrev security_text : Text → Text
security_text t =
    lit "tool execution failed: security validation failed: "
    ∷ (t ++ lit ". Please fix the arguments and try again." ∷ [])

abbrev or_else : Option GoError → Option GoError → Option GoError
or_else (some e) rest = some e
or_else none rest = rest

unfoldable pub authorize : RegistryOptions → PolicyRequest → Option GoError
authorize o req = elim o.authorizer [
  | none ↦ none
  | some a ↦ elim (a req) [ none ↦ none | some e ↦ some (authorization_error e (as_tool_error e)) ]
]

unfoldable pub validate_input : RegistryOptions → String → ToolInput → Option GoError
validate_input o name input = elim o.validator [
  | none ↦ none
  | some v ↦ elim (v name input) [
    | none ↦ none
    | some t ↦ some (to_error (new_validation_error (security_text t) []))
  ]
]

abbrev denied : Option ToolError → Option GoError
denied none = none
denied (some te) = some (to_error te)

-- The checks of runToolWithValidationAndExecute before the tool, in its order; `none` lets it run.
unfoldable pub gate : Registry → ToolCall → RunEnv → Tool → Option GoError
unfolding authorize validate_input
gate r call env t =
    let m = manifest t in
    let req : PolicyRequest = record {
      manifest = m;
      input = call.input;
      call_context = call.call_context;
      view_id = r.opts.view_id;
    } in
    or_else (enforce_requirements_policy m.requirements r.opts.policy) (
      or_else (authorize r.opts req) (
        or_else (denied (evaluate_policy r.opts.policy req)) (
          or_else (enforce_runtime_requirements m.requirements (some env))
            (validate_input r.opts call.tool_name call.input))))
