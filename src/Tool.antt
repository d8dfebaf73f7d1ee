-- ===== src/Tool.antt =====
-- toolsy.go, options.go, requirements.go, call_context.go, runenv.go (the data), middleware.go: tools,
-- what they are called with, and what a run of one is.
--
-- A tool is host code. Its run is a script: it hands chunks to `yield` and goes on by what that
-- returns, starts background work, and in the end returns an error or nil, or panics. Slices are
-- values, so the defensive copies of the program are the identity.
pub mod Run
use toolsy.Prelude.{
  ℕ, zero, suc, ◌+◌, String, Bool, true, false, Option, none, some, List, [], ◌∷◌, str_eq, not,
  ◌&&◌, ◌||◌, is_empty, if◌then◌else◌,
}
use toolsy.Errors.{GoError, Text, Result}
use toolsy.Chunk.{Chunk}

pub data MemoryAccess : Type 0 where
  unset no_access read read_write : MemoryAccess
  other_access : String → MemoryAccess

pub record ToolRequirements : Type 0 where
  pub memory_access : MemoryAccess
  pub needs_session : Bool
  pub permissions : List String

-- A schema (`map[string]any`) is a number that names it.
pub record ToolManifest : Type 0 where
  pub name : String
  pub description : String
  pub parameters : ℕ
  pub output_schema : ℕ
  pub tags : List String
  pub version : String
  pub requirements : ToolRequirements
  pub completion_policy : String
  pub read_only : Bool
  pub requires_confirmation : Bool
  pub dangerous : Bool
  pub idempotent : Bool

pub record ToolInput : Type 0 where
  pub call_id : String
  pub args_json : List ℕ
  pub attachments : List (String × List ℕ)

pub record CallMetadata : Type 0 where
  pub call_id : String
  pub tool_name : String
  pub view_id : String
  pub tags : List String

pub record CallContext : Type 0 where
  pub subject : Option ℕ
  pub scope : Option ℕ
  pub metadata : CallMetadata
  pub values : List (String × ℕ)

-- BudgetTracker.Allow
abbrev pub BudgetTracker : Type 0
BudgetTracker = ToolManifest → ToolInput → Result (Bool × Text)

-- RunEnv: the session it is bound to, whether there is a state store, and the budget dependency.
pub record RunEnv : Type 0 where
  pub session : Option ℕ
  pub state_store : Bool
  pub budget : Option BudgetTracker
  pub attachments : List (String × List ℕ)
  pub call_context : CallContext
  pub view_id : String

pub data Script : Type 0 where
  done : Option GoError → Script
  panic : String → Script
  emit : Chunk → (Option GoError → Script) → Script
  spawn : Script → Script → Script

abbrev pub Executor : Type 0
Executor = RunEnv → ToolInput → Script

-- A tool of the host; a wrapper with `toolBase` (a ChainUnwrapper), which is given the manifest and
-- the `Execute` of the next tool; an `asyncTool`.
pub data Tool : Type 0 where
  base : ToolManifest → Executor → Tool
  wrapper : (ToolManifest → Executor → Executor) → Tool → Tool
  async : ℕ → Tool → Tool

unfoldable pub manifest : Tool → ToolManifest
manifest (base m e) = m
manifest (wrapper f t) = manifest t
manifest (async n t) = manifest t

abbrev pub Middleware : Type 0
Middleware = Tool → Tool

-- countAsyncLayers
unfoldable pub count_async_layers : Tool → ℕ
count_async_layers (base m e) = 0
count_async_layers (wrapper f t) = count_async_layers t
count_async_layers (async n t) = suc (count_async_layers t)

abbrev needs_memory : MemoryAccess → Bool
needs_memory unset = false
needs_memory no_access = false
needs_memory _ = true

unfoldable pub has_requirements : ToolRequirements → Bool
has_requirements r = r.needs_session || needs_memory r.memory_access || not (is_empty r.permissions)

abbrev pub needs_state : ToolRequirements → Bool
needs_state r = r.needs_session || needs_memory r.memory_access

-- bindCallMetadata, bindViewMetadata
abbrev pub bind_call_metadata : CallContext → String → ToolInput → CallContext
bind_call_metadata c tool_name input = record c {
  metadata = record c.metadata { call_id = input.call_id; tool_name = tool_name; view_id = "" };
}

abbrev pub bind_view_metadata : CallContext → String → CallContext
bind_view_metadata c id = record c { metadata = record c.metadata { view_id = id } }
