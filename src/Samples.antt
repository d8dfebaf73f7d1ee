-- ===== src/Samples.antt =====
-- A small host, registry and session, at which the tests run the definitions.
use toolsy.Prelude.{ℕ, suc, true, false, Option, none, some, List, [], ◌∷◌}
use toolsy.Errors.{GoError, sentinel, timeout, lit}
use toolsy.Chunk.{Codec, Chunk, empty_chunk, progress, result, raw, mime_text, mime_json}
use toolsy.Tool.{
  Tool, base, ToolManifest, ToolInput, CallContext, RunEnv, Script, done, emit, unset,
}
use toolsy.Policy.{Policy, PolicyRequest, allow_decision, deny_decision}
use toolsy.Registry.{Registry, RegistryOptions, RuntimeState}
use toolsy.Registry.Execute.{Host, ToolCall}
use toolsy.Session.{Session, RunPolicy}

abbrev pub codec : Codec
codec = record {
  json_valid = λ bs. true;
  parse_wire = λ bs. none;
  valid_text = λ t. t;
  wire_size = λ w. 7;
  trimmed_text = λ p. [];
  text_like = λ m. true;
  llm_message = λ te e. te.reason;
  read_limit_text = λ e. [];
}

abbrev pub host : Host
host = record { codec = codec; summary_text = λ c e. lit "failed" ∷ []; async_run = λ n next. next }

abbrev pub echo_manifest : ToolManifest
echo_manifest = record {
  name = "echo";
  description = "says it again";
  parameters = 0;
  output_schema = 0;
  tags = [];
  version = "1";
  requirements = record { memory_access = unset; needs_session = false; permissions = [] };
  completion_policy = "halt";
  read_only = true;
  requires_confirmation = false;
  dangerous = false;
  idempotent = false;
}

abbrev pub progress_chunk : Chunk
progress_chunk = record empty_chunk {
  event = progress;
  payload = raw (1 ∷ []);
  mime_type = mime_text;
}

abbrev pub result_chunk : Chunk
result_chunk = record empty_chunk {
  event = result;
  payload = raw (2 ∷ 3 ∷ []);
  mime_type = mime_json;
}

-- An error chunk without the payload of a tool error.
abbrev pub malformed_chunk : Chunk
malformed_chunk = record empty_chunk {
  event = result;
  payload = raw (4 ∷ []);
  mime_type = mime_text;
  is_error = true;
}

abbrev pub echo_script : Script
echo_script = emit progress_chunk (λ a. emit malformed_chunk (λ b. emit result_chunk done))

abbrev pub echo : Tool
echo = base echo_manifest (λ env input. echo_script)

abbrev pub options : RegistryOptions
options = record {
  recover_panics = true;
  on_before = true;
  on_after = true;
  on_chunk = true;
  authorizer = none;
  validator = none;
  policy = none;
  policy_digest = "";
  policy_id_missing = false;
  view_id = "";
}

abbrev pub registry : Registry
registry = record {
  tools = ("echo", echo) ∷ [];
  opts = options;
  has_state = true;
  state_address = 7;
}

abbrev pub deny_all : Policy
deny_all = record {
  decide = λ req. deny_decision (lit "no" ∷ []) [];
  enforces_requirements = false;
}

abbrev pub allow_all : Policy
allow_all = record { decide = λ req. allow_decision; enforces_requirements = true }

-- A registry whose authorizer refuses every call.
abbrev pub guarded : Registry
guarded = record registry {
  opts = record options { authorizer = some (λ req. some (sentinel timeout)) };
}

abbrev pub input : ToolInput
input = record { call_id = "call-1"; args_json = []; attachments = [] }

abbrev pub context : CallContext
context = record {
  subject = none;
  scope = none;
  metadata = record { call_id = ""; tool_name = ""; view_id = ""; tags = [] };
  values = [];
}

abbrev pub call : ToolCall
call = record { tool_name = "echo"; input = input; env = none; call_context = context }

abbrev pub env : RunEnv
env = record {
  session = none;
  state_store = false;
  budget = none;
  attachments = [];
  call_context = context;
  view_id = "";
}

abbrev pub no_interrupt : ℕ → Option GoError
no_interrupt n = none

abbrev pub running_state : RuntimeState
running_state = record { closed = false; running = 0 }

abbrev pub takes_all : List Chunk → Chunk → Option GoError
takes_all took c = none

-- A consumer that counts what it takes.
abbrev pub counting : ℕ → Chunk → ℕ × Option GoError
counting n c = (suc n, none)

abbrev pub run_policy : RunPolicy
run_policy = record {
  forced_tool = "echo";
  required_tools = "echo" ∷ [];
  allowed_tools = "echo" ∷ "grep" ∷ [];
}

abbrev pub session : Session
session = record {
  id = 1;
  reg = some registry;
  track = record { count = 0; max_steps = 2 };
  policy = run_policy;
}

abbrev pub request : PolicyRequest
request = record { manifest = echo_manifest; input = input; call_context = context; view_id = "" }
