-- ===== src/Policy.antt =====
-- policy.go, requirements.go (hasRequirements and what enforces it), registry.go
-- (enforceRequirementsPolicy, enforceRuntimeRequirements): who may call a tool.
pub mod Composition
use toolsy.Prelude.{
  String, Bool, true, false, not, ◌&&◌, ◌||◌, Option, none, some, List, [], ◌∷◌, if◌then◌else◌,
}
use toolsy.Errors.{
  GoError, Sentinel, sentinel, policy_denied, sentinel_text, Text, lit, is_blank, ErrorCode,
  code_empty, code_policy_denied, ToolError, to_error, as_tool_error, error_text,
  new_policy_denied_error, new_dependency_missing_error,
}
use toolsy.Tool.{
  ToolManifest, ToolInput, ToolRequirements, CallContext, RunEnv, has_requirements, needs_state,
}

pub record Decision : Type 0 where
  pub allow : Bool
  pub code : ErrorCode
  pub reason : Text
  pub safe_message : Text
  pub fixable_args : List String
  pub retryable : Bool
  pub err : Option GoError

abbrev pub allow_decision : Decision
allow_decision = record {
  allow = true;
  code = code_empty;
  reason = [];
  safe_message = [];
  fixable_args = [];
  retryable = false;
  err = none;
}

abbrev pub deny_decision : Text → List String → Decision
deny_decision reason args = record {
  allow = false;
  code = code_policy_denied;
  reason = reason;
  safe_message = [];
  fixable_args = args;
  retryable = false;
  err = some (sentinel policy_denied);
}

pub record PolicyRequest : Type 0 where
  pub manifest : ToolManifest
  pub input : ToolInput
  pub call_context : CallContext
  pub view_id : String

-- A non-nil `Policy`, and whether it is a requirements policy (`enforcesRequirements`).
pub record Policy : Type 0 where
  pub decide : PolicyRequest → Decision
  pub enforces_requirements : Bool

abbrev or_policy_denied : ErrorCode → ErrorCode
or_policy_denied code_empty = code_policy_denied
or_policy_denied c = c

-- decisionError; `none` is nil.
unfoldable pub decision_error : Decision → Option ToolError
decision_error d =
    if d.allow
    then none
    else some (record {
      info = record {
        code = or_policy_denied d.code;
        retryable = d.retryable;
        reason = if is_blank d.reason then lit (sentinel_text policy_denied) ∷ [] else d.reason;
        fixable_args = d.fixable_args;
        safe_message = d.safe_message;
      };
      err = elim d.err [ none ↦ some (sentinel policy_denied) | some e ↦ some e ];
    })

unfoldable pub evaluate_policy : Option Policy → PolicyRequest → Option ToolError
unfolding decision_error
evaluate_policy none req = none
evaluate_policy (some p) req = decision_error (p.decide req)

abbrev pub policy_enforces_requirements : Option Policy → Bool
policy_enforces_requirements none = false
policy_enforces_requirements (some p) = p.enforces_requirements

abbrev denial_of : GoError → Option ToolError → Decision
denial_of e (some te) = record {
  allow = false;
  code = te.code;
  reason = te.reason;
  safe_message = te.safe_message;
  fixable_args = te.fixable_args;
  retryable = te.retryable;
  err = te.err;
}
denial_of e none = deny_decision (error_text e) []

-- compositePolicy.Decide
unfoldable pub composite_decide : Policy → Policy → PolicyRequest → Decision
unfolding evaluate_policy as_tool_error
composite_decide first second req = elim (evaluate_policy (some first) req) [
  | some te ↦ denial_of (to_error te) (as_tool_error (to_error te))
  | none ↦ second.decide req
]

unfoldable pub compose_policies : Option Policy → Option Policy → Option Policy
unfolding composite_decide
compose_policies none second = second
compose_policies (some p) none = some p
compose_policies (some p) (some q) = some (record {
  decide = composite_decide p q;
  enforces_requirements = p.enforces_requirements || q.enforces_requirements;
})

unfoldable pub enforce_requirements_policy : ToolRequirements → Option Policy → Option GoError
unfolding has_requirements
enforce_requirements_policy r p =
    if not (has_requirements r) || policy_enforces_requirements p
    then none
    else some (
        to_error (
          new_policy_denied_error (lit "tool requirements require a requirements policy" ∷ [])
            ("requirements" ∷ [])))

abbrev has_session : Option RunEnv → Bool
has_session none = false
has_session (some env) = elim env.session [ some s ↦ true | none ↦ env.state_store ]

unfoldable pub enforce_runtime_requirements : ToolRequirements → Option RunEnv → Option GoError
enforce_runtime_requirements r env =
    if not (needs_state r)
    then none
    else if has_session env
    then none
    else some (to_error (new_dependency_missing_error "session state"))
