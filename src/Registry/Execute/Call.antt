-- ===== src/Registry/Execute/Call.antt =====
-- toolsy.go (ToolCall, ExecutionSummary), registry.go: what a call is given, and what it leaves behind.
use toolsy.Prelude.{ℕ, String, Option, none, List, []}
use toolsy.Errors.{GoError, Text}
use toolsy.Chunk.{Codec, Chunk}
use toolsy.Tool.{
  Tool, base, wrapper, async, Executor, ToolInput, CallContext, RunEnv, Script, manifest,
}

pub record ToolCall : Type 0 where
  pub tool_name : String
  pub input : ToolInput
  pub env : Option RunEnv
  pub call_context : CallContext

pub record ExecutionSummary : Type 0 where
  pub call_id : String
  pub tool_name : String
  pub error : Option GoError
  pub chunks_delivered : ℕ
  pub total_bytes : ℕ
  pub error_chunks : ℕ
  pub last_error_text : Text

abbrev pub empty_summary : ExecutionSummary
empty_summary = record {
  call_id = "";
  tool_name = "";
  error = none;
  chunks_delivered = 0;
  total_bytes = 0;
  error_chunks = 0;
  last_error_text = [];
}

pub data Hook : Type 0 where
  before : ToolCall → Hook
  chunk_seen : Chunk → Hook
  after : ExecutionSummary → Hook

-- The state of a call under way, with the consumer's own state.
pub record Progress (S : Type 0) : Type 0 where
  pub consumer : S
  pub summary : ExecutionSummary
  pub moment : ℕ
  pub background : List Script
  pub trace : List Hook

-- What the host gives to the engine: the codec, the words of an error chunk's summary, the context, and
-- what an async tool's run is.
pub record Host : Type 0 where
  pub codec : Codec
  pub summary_text : Chunk → Option GoError → Text
  pub async_run : ℕ → Executor → Executor

-- Tool.Execute
unfoldable pub execute_tool : Host → Tool → Executor
execute_tool h (base m e) = e
execute_tool h (wrapper f t) = f (manifest t) (execute_tool h t)
execute_tool h (async n t) = h.async_run n (execute_tool h t)
