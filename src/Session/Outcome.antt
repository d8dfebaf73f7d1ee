-- ===== src/Session/Outcome.antt =====
-- outcome.go (RunCall and what it calls): one tool call, with its chunks put together.
use toolsy.Prelude.{
  ℕ, String, Bool, true, false, ◌||◌, Option, none, some, List, [], ◌∷◌, ◌++◌, if◌then◌else◌,
}
use toolsy.Errors.{
  GoError, ErrorCode, code_tool_not_found, code_shutdown, code_max_steps_exceeded,
  code_registry_not_ready, code_dependency_missing, code_tools_contract_missing, code_policy_denied,
  code_capability_denied, ToolError, to_error, as_tool_error, is, is_context_interrupt,
  is_control_error, stream_aborted, orchestrator_system_code, new_internal_error,
  new_tool_not_found_error,
}
use toolsy.Chunk.{
  Codec, Payload, raw, Chunk, EventType, no_event, progress, result, control, other_event,
  ControlSignal, ToolEnvelope, new_error_envelope, mime_tool_error_json,
}
use toolsy.Chunk.Prepare.{execution_error_from_chunk, tool_envelope}
use toolsy.Tool.{manifest}
use toolsy.Tool.Run.{Exit, returned, panicked}
use toolsy.Registry.{Registry, RuntimeState, get_tool}
use toolsy.Registry.Execute.{Host, ToolCall}
use toolsy.Session.{Session, execute}

-- OutcomeStatus; `undecided` is the empty string.
pub data OutcomeStatus : Type 0 where
  undecided success empty_success noop_success business_error infrastructure_error : OutcomeStatus

-- ToolOutcome; `Envelope` is its zero value until it is set.
pub record ToolOutcome : Type 0 where
  pub tool_name : String
  pub result : Payload
  pub result_mime_type : String
  pub typed_result : Option ℕ
  pub envelope : Option ToolEnvelope
  pub empty_result : Bool
  pub noop : Bool
  pub effects : List ℕ
  pub progress : List Chunk
  pub controls : List ControlSignal
  pub completion_policy : String
  pub status : OutcomeStatus
  pub execution_error : Option ToolError

abbrev pub new_outcome : String → String → OutcomeStatus → ToolOutcome
new_outcome name completion s = record {
  tool_name = name;
  result = raw [];
  result_mime_type = "";
  typed_result = none;
  envelope = none;
  empty_result = false;
  noop = false;
  effects = [];
  progress = [];
  controls = [];
  completion_policy = completion;
  status = s;
  execution_error = none;
}

-- The outcome, and `terminalBusiness`.
pub record Account : Type 0 where
  pub outcome : ToolOutcome
  pub terminal : Bool

unfoldable pub account_run_call_result : Codec → Account → Chunk → Account
account_run_call_result codec a c =
    if c.is_error
    then record {
      outcome = record a.outcome {
        result = raw [];
        result_mime_type = "";
        typed_result = none;
        envelope = some (tool_envelope codec c);
        empty_result = false;
        effects = [];
        execution_error = some (execution_error_from_chunk codec c);
        status = business_error;
      };
      terminal = true;
    }
    else record a {
      outcome = record a.outcome {
        result = c.payload;
        result_mime_type = c.mime_type;
        typed_result = c.typed_result;
        envelope = some (tool_envelope codec c);
        empty_result = c.empty_result;
        noop = c.noop;
        effects = c.effects;
        controls = a.outcome.controls ++ c.controls;
      };
    }

-- A progress or a control chunk counts until an error chunk came.
abbrev pub add_progress : Account → Chunk → Account
add_progress a c =
    if a.terminal
    then a
    else record a { outcome = record a.outcome { progress = a.outcome.progress ++ c ∷ [] } }

abbrev pub add_control : Account → Option ControlSignal → Account
add_control a none = a
add_control a (some s) =
    if a.terminal
    then a
    else record a { outcome = record a.outcome { controls = a.outcome.controls ++ s ∷ [] } }

abbrev pub account_event : Codec → Account → Chunk → EventType → Account
account_event codec a c progress = add_progress a c
account_event codec a c control = add_control a c.control_signal
account_event codec a c result = account_run_call_result codec a c
account_event codec a c no_event = a
account_event codec a c (other_event s) = a

unfoldable pub account_run_call_chunk : Codec → Account → Chunk → Account
unfolding account_run_call_result
account_run_call_chunk codec a c = account_event codec a c c.event

abbrev infra_code : ErrorCode → Bool
infra_code code_tool_not_found = true
infra_code code_shutdown = true
infra_code code_max_steps_exceeded = true
infra_code code_registry_not_ready = true
infra_code code_dependency_missing = true
infra_code code_tools_contract_missing = true
infra_code code_policy_denied = true
infra_code code_capability_denied = true
infra_code _ = false

abbrev infra_tool_error : Option ToolError → Bool
infra_tool_error none = true
infra_tool_error (some te) = orchestrator_system_code te.code || infra_code te.code

-- runCallInfraError of an error that is not nil
unfoldable pub run_call_infra_error : GoError → Bool
run_call_infra_error e =
    is_context_interrupt e || is e stream_aborted || infra_tool_error (as_tool_error e)

-- toolErrorFromRunCall; `none` is nil.
unfoldable pub tool_error_from_run_call : GoError → Option ToolError
tool_error_from_run_call e =
    if is_context_interrupt e
    then none
    else elim (as_tool_error e) [ some te ↦ some te | none ↦ some (new_internal_error e) ]

abbrev decided : ToolOutcome → Option ToolError → OutcomeStatus
decided o (some te) = business_error
decided o none = if o.noop then noop_success else if o.empty_result then empty_success else success

abbrev pub or_decided : ToolOutcome → OutcomeStatus → OutcomeStatus
or_decided o undecided = decided o o.execution_error
or_decided o s = s

abbrev pub fails_in_infra : Option ToolError → Bool
fails_in_infra none = false
fails_in_infra (some te) = run_call_infra_error (to_error te)

abbrev pub error_of : Option ToolError → Option GoError
error_of none = none
error_of (some te) = some (to_error te)

unfoldable pub finalize_run_call_outcome : ToolOutcome → ToolOutcome × Option GoError
unfolding run_call_infra_error
finalize_run_call_outcome o =
    if fails_in_infra o.execution_error
    then (record o { status = infrastructure_error }, error_of o.execution_error)
    else (record o { status = or_decided o o.status }, none)

-- What RunCall does with the outcome and the error of Execute.
unfoldable pub conclude_run_call : ToolOutcome → Option GoError → ToolOutcome × Option GoError
unfolding finalize_run_call_outcome run_call_infra_error tool_error_from_run_call
conclude_run_call o none = finalize_run_call_outcome o
conclude_run_call o (some e) =
    let failed : ToolOutcome = record o {
      execution_error = tool_error_from_run_call e;
      envelope = some (
          new_error_envelope (tool_error_from_run_call e) (raw []) mime_tool_error_json none none
            []);
    } in
    if is_control_error e
    then (o, some e)
    else if run_call_infra_error e
    then (record o { status = infrastructure_error }, some e)
    else finalize_run_call_outcome failed

abbrev pub completion_of : Registry → String → String
completion_of r name = elim (get_tool (some r) name) [
  | none ↦ ""
  | some t ↦ (manifest t).completion_policy
]

-- The consumer of RunCall takes every chunk.
abbrev pub accounting : Codec → Account → Chunk → Account × Option GoError
accounting codec a c = (account_run_call_chunk codec a c, none)

-- What RunCall returns; a panic that is not recovered goes on to the caller.
pub data RunCallResult : Type 0 where
  run_call_returned : ToolOutcome → Option GoError → RunCallResult
  run_call_panicked : String → RunCallResult

abbrev pub run_call_result : ToolOutcome → Exit → RunCallResult
run_call_result o (returned e) = let (p, f) = conclude_run_call o e in run_call_returned p f
run_call_result o (panicked x) = run_call_panicked x

-- Session.RunCall of a session that is not nil
unfoldable pub run_call :
    Host → (ℕ → Option GoError) → Session → ToolCall → RuntimeState → RunCallResult
unfolding account_run_call_chunk conclude_run_call get_tool
run_call host interrupt s call runtime = elim s.reg [
  | none ↦
      run_call_returned (new_outcome call.tool_name "" infrastructure_error)
        (some (to_error new_tool_not_found_error))
  | some r ↦
      let start : Account = record {
        outcome = new_outcome call.tool_name (completion_of r call.tool_name) undecided;
        terminal = false;
      } in
      let run = execute host interrupt (accounting host.codec) s call runtime start in
      run_call_result run.consumer.outcome run.exit
]
