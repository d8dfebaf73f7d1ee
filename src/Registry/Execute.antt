-- ===== src/Registry/Execute.antt =====
-- registry.go (executeWithSummary, runToolWithValidationAndExecute, wrapYieldWithCallMeta,
-- accountDeliveredChunk, normalizeExecutionInterrupt): one tool call.
--
-- `ctx.Err()` at the n-th chunk is `interrupt n`. A hook is an entry of the trace, in the order of the
-- calls. The time that a call takes is not modelled.
mod Call
mod Gate
unfoldable pub use Call.*
unfoldable pub use Gate.*
use toolsy.Prelude.{
  ℕ, suc, ◌+◌, String, Bool, true, false, not, ◌&&◌, Option, none, some, List, [], ◌∷◌, ◌++◌,
  str_eq, if◌then◌else◌, is_empty,
}
use toolsy.Errors.{
  GoError, canceled, Text, lit, message, ErrorCode, code_timeout, ToolError, to_error,
  as_tool_error, is, is_context_interrupt, new_registry_state_error, new_shutdown_error,
  new_tool_not_found_error, new_capability_denied_error, new_internal_error, new_timeout_error_from,
  new_validation_error, new_policy_denied_error_from, Result, ok, err,
}
use toolsy.Chunk.{Codec, Chunk, payload_len}
use toolsy.Chunk.Prepare.{prepare_chunk}
use toolsy.Tool.{
  Tool, base, wrapper, async, Executor, ToolInput, CallContext, RunEnv, Script, manifest,
  bind_call_metadata, bind_view_metadata,
}
use toolsy.Tool.Run.{Exit, returned, panicked, run_script}
use toolsy.Policy.{
  PolicyRequest, enforce_requirements_policy, enforce_runtime_requirements, evaluate_policy,
}
use toolsy.Registry.{
  Registry, RegistryOptions, RuntimeState, lookup_tool, try_start_execution, finish_execution,
}

module _ {S : Type 0} (host : Host) (r : Registry) (interrupt : ℕ → Option GoError)
    (yield : S → Chunk → S × Option GoError) where
  -- accountDeliveredChunk, after the consumer took the chunk
  unfoldable pub account_delivered_chunk : Chunk → Progress S → Progress S
  account_delivered_chunk c p =
      if c.is_error
      then record p {
        summary = record p.summary {
          error_chunks = p.summary.error_chunks + 1;
          last_error_text = host.summary_text c none;
        };
      }
      else record p {
        summary = record p.summary {
          chunks_delivered = p.summary.chunks_delivered + 1;
          total_bytes = p.summary.total_bytes + payload_len host.codec c.payload;
        };
        trace = if r.opts.on_chunk then p.trace ++ chunk_seen c ∷ [] else p.trace;
      }

  abbrev pub with_call_meta : ToolCall → Chunk → Chunk
  with_call_meta call c = record c {
    call_id = if str_eq c.call_id "" then call.input.call_id else c.call_id;
    tool_name = if str_eq c.tool_name "" then call.tool_name else c.tool_name;
  }

  -- The consumer's answer, and the account if it took the chunk.
  abbrev pub taken : Chunk → Progress S → S × Option GoError → Progress S × Option GoError
  taken c p (s, some e) = (record p { consumer = s }, some e)
  taken c p (s, none) = (account_delivered_chunk c (record p { consumer = s }), none)

  abbrev pub offer : Progress S → Result Chunk → Progress S × Option GoError
  offer p (err e) = (p, some e)
  offer p (ok c) = taken c p (yield p.consumer c)

  -- wrapYieldWithCallMeta
  unfoldable pub wrap_yield_with_call_meta :
      ToolCall → Progress S → Chunk → Progress S × Option GoError
  unfolding account_delivered_chunk
  wrap_yield_with_call_meta call p c =
      let q = record p { moment = suc p.moment } in
      elim (interrupt p.moment) [
        | some e ↦ (q, some e)
        | none ↦ offer q (prepare_chunk host.codec (with_call_meta call c))
      ]

  abbrev pub start_background : Progress S → Script → Progress S
  start_background p b = record p { background = b ∷ p.background }

-- What executeWithSummary leaves behind: a panic that is not recovered goes on to the caller.
pub record Executed (S : Type 0) : Type 0 where
  pub progress : Progress S
  pub runtime : RuntimeState
  pub summary_ready : Bool
  pub exit : Exit

abbrev empty_env : RunEnv
empty_env = record {
  session = none;
  state_store = false;
  budget = none;
  attachments = [];
  call_context = record {
    subject = none;
    scope = none;
    metadata = record { call_id = ""; tool_name = ""; view_id = ""; tags = [] };
    values = [];
  };
  view_id = "";
}

abbrev pub exec_context : Registry → ToolCall → CallContext
exec_context r call =
    let bound = bind_call_metadata call.call_context call.tool_name call.input in
    if str_eq r.opts.view_id "" then bound else bind_view_metadata bound r.opts.view_id

abbrev pub exec_env : Registry → ToolCall → RunEnv
exec_env r call =
    let env : RunEnv = elim call.env [ none ↦ empty_env | some e ↦ e ] in
    record env {
      attachments = call.input.attachments;
      call_context = exec_context r call;
      view_id = r.opts.view_id;
    }

-- What a name without a tool gives: a view denies the capability.
abbrev pub unknown_tool_error : Registry → ToolCall → GoError
unknown_tool_error r call =
    if str_eq r.opts.view_id ""
    then to_error new_tool_not_found_error
    else to_error (new_capability_denied_error call.tool_name r.opts.view_id)

-- The interrupt that a tool's run returned is normalised; a panic is not looked at.
abbrev pub normalized : {S : Type 0} → Progress S × Exit → Progress S × Exit
normalized (p, returned e) = (p, returned (normalize_execution_interrupt e))
normalized (p, panicked x) = (p, panicked x)

-- A refusal of the gate ends the call; else the tool runs.
abbrev pub gated :
    {S : Type 0} → Progress S → Option GoError → Progress S × Exit → Progress S × Exit
gated p (some e) run = (p, returned (some e))
gated p none run = normalized run

-- The panic recovery and what follows: the summary's error, and how the call ends.
abbrev pub settle : Bool → Exit → Option GoError × Exit
settle recover (returned e) = (e, returned e)
settle true (panicked p) =
    let e = to_error (new_internal_error (message (lit "panic: " ∷ lit p ∷ []))) in
    (some e, returned (some e))
settle false (panicked p) = (none, panicked p)

module _ {S : Type 0} (host : Host) (r : Registry) (interrupt : ℕ → Option GoError)
    (yield : S → Chunk → S × Option GoError) where
  abbrev pub new_progress : S → Progress S
  new_progress s = record {
    consumer = s;
    summary = empty_summary;
    moment = 0;
    background = [];
    trace = [];
  }

  -- The run of the tool, if the gate lets it: the progress, and how it exits.
  unfoldable pub run_gated : ToolCall → Tool → Progress S → Progress S × Exit
  run_gated call t p =
      let run =
        run_script (wrap_yield_with_call_meta host r interrupt yield call)
          (start_background host r interrupt yield)
          (execute_tool host t (exec_env r call) call.input) p in
      gated p (gate r call (exec_env r call) t) run

  -- After the run: the error goes to the summary, the after-hook sees it, and the execution is released
  -- unless background work goes on.
  unfoldable pub conclude : Bool → RuntimeState → Progress S × Exit → Executed S
  conclude with_after_hook runtime (p, ex) =
      let (e, exit) = settle r.opts.recover_panics ex in
      let summary = record p.summary { error = e } in
      record {
        progress = record p {
          summary = summary;
          trace =
              if with_after_hook && r.opts.on_after then p.trace ++ after summary ∷ [] else p.trace;
        };
        runtime = if is_empty p.background then finish_execution runtime else runtime;
        summary_ready = true;
        exit = exit;
      }

  abbrev pub refused : S → RuntimeState → GoError → Executed S
  refused s runtime e = record {
    progress = new_progress s;
    runtime = runtime;
    summary_ready = false;
    exit = returned (some e);
  }

  -- The call as the tool and the hooks see it, with the bound call context.
  abbrev pub bound_call : ToolCall → ToolCall
  bound_call call = record call { call_context = exec_context r call }

  unfoldable pub run_found : Bool → ToolCall → RuntimeState → Tool → S → Executed S
  run_found with_after_hook call runtime t s =
      let p : Progress S = record (new_progress s) {
        summary = record empty_summary { call_id = call.input.call_id; tool_name = call.tool_name };
        trace = if r.opts.on_before then before (bound_call call) ∷ [] else [];
      } in
      conclude with_after_hook runtime (run_gated (bound_call call) t p)

  -- The call of a tool that was looked up, after the start was counted.
  abbrev pub run_looked_up : Bool → ToolCall → RuntimeState → S → Option Tool → Executed S
  run_looked_up hook call started s none =
      refused s (finish_execution started) (unknown_tool_error r call)
  run_looked_up hook call started s (some t) = run_found hook call started t s

  abbrev pub run_started : Bool → ToolCall → RuntimeState → S → Option RuntimeState → Executed S
  run_started hook call runtime s none = refused s runtime (to_error new_shutdown_error)
  run_started hook call runtime s (some started) =
      run_looked_up hook call started s (lookup_tool r.tools call.tool_name)

  unfoldable pub execute_with_summary : Bool → ToolCall → RuntimeState → S → Executed S
  unfolding try_start_execution
  execute_with_summary hook call runtime s =
      if not r.has_state
      then refused s runtime (to_error new_registry_state_error)
      else run_started hook call runtime s (try_start_execution runtime)
