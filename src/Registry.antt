-- ===== src/Registry.antt =====
-- registry.go: the builder, the immutable registry, its lookups and subsets, and the runtime state
-- that it shares with its views.
pub mod Execute
pub mod Building
pub mod Subsets
pub mod Delivery
pub mod Offers
pub mod Keeps
pub mod Lifecycle
pub mod Gates
pub mod Iteration
mod Tests
use mathlib.Core.List.{foldr}
use toolsy.Prelude.{
  ℕ, zero, suc, ◌+◌, ◌-◌, String, Bool, true, false, not, ◌&&◌, ◌||◌, Option, none, some, List, [],
  ◌∷◌, ◌++◌, ltb, str_eq, contains, if◌then◌else◌, is_empty,
}
use toolsy.Errors.{
  GoError, Text, lit, quoted, message, wrap, ToolError, to_error, new_registry_state_error,
  new_tool_not_found_in_subset_error, Result, ok, err, ◌>>=◌,
}
use toolsy.Chunk.{Chunk}
use toolsy.Tool.{
  Tool, base, wrapper, async, ToolManifest, ToolInput, CallContext, RunEnv, Middleware, manifest,
  count_async_layers,
}
use toolsy.Policy.{Policy, PolicyRequest, compose_policies}

-- registryOptions, with the hooks as flags: what a hook sees goes to the trace of a call.
pub record RegistryOptions : Type 0 where
  pub recover_panics : Bool
  pub on_before : Bool
  pub on_after : Bool
  pub on_chunk : Bool
  pub authorizer : Option (PolicyRequest → Option GoError)
  pub validator : Option (String → ToolInput → Option Text)
  pub policy : Option Policy
  pub policy_digest : String
  pub policy_id_missing : Bool
  pub view_id : String

-- registryRuntimeState: whether `done` is closed, and the count of `running`.
pub record RuntimeState : Type 0 where
  pub closed : Bool
  pub running : ℕ

-- The map from names to tools, an entry for each name.
abbrev pub ToolMap : Type 0
ToolMap = List (String × Tool)

-- `state` is shared by all views, and is nil in a zero Registry. The state itself is kept beside the
-- registry; here is whether the pointer is there, and the address that it holds.
pub record Registry : Type 0 where
  pub tools : ToolMap
  pub opts : RegistryOptions
  pub has_state : Bool
  pub state_address : ℕ

unfoldable pub lookup_tool : ToolMap → String → Option Tool
lookup_tool [] name = none
lookup_tool ((n, t) ∷ m) name = if str_eq n name then some t else lookup_tool m name

-- GetTool and Has; a nil receiver is `none`.
unfoldable pub get_tool : Option Registry → String → Option Tool
unfolding lookup_tool
get_tool none name = none
get_tool (some r) name = lookup_tool r.tools name

unfoldable pub has : Option Registry → String → Bool
unfolding lookup_tool
has none name = false
has (some r) name = elim (lookup_tool r.tools name) [ none ↦ false | some t ↦ true ]

pub record RegistryBuilder : Type 0 where
  pub tools : List (Option Tool)
  pub middlewares : List Middleware
  pub opts : RegistryOptions
  -- where the new state will be allocated
  pub new_address : ℕ

-- The middlewares, the first outermost.
abbrev pub apply_middlewares : List Middleware → Tool → Tool
apply_middlewares [] t = t
apply_middlewares (m ∷ ms) t = m (apply_middlewares ms t)

-- One tool of the builder: an async layer is taken off and put back over the middlewares.
unfoldable pub wrap_tool : List Middleware → Tool → Tool
wrap_tool ms (base m e) = apply_middlewares ms (base m e)
wrap_tool ms (wrapper f t) = apply_middlewares ms (wrapper f t)
wrap_tool ms (async n t) = async n (apply_middlewares ms t)

-- `tools[name] = t`, for a name that is not there.
unfoldable pub add_tool : ToolMap → Tool → Result ToolMap
unfolding lookup_tool
add_tool m t =
    let name = (manifest t).name in
    if str_eq name ""
    then err (message (lit "toolsy: tool manifest name is required" ∷ []))
    else elim (lookup_tool m name) [
      | some u ↦ err (message (lit "toolsy: duplicate tool name " ∷ quoted name ∷ []))
      | none ↦ ok ((name, t) ∷ m)
    ]

-- The body of the loop of Build.
unfoldable pub build_one : List Middleware → ToolMap → Option Tool → Result ToolMap
unfolding wrap_tool add_tool count_async_layers manifest
build_one ms m none = err (message (lit "toolsy: nil tool in registry builder" ∷ []))
build_one ms m (some t) =
    if ltb 1 (count_async_layers t)
    then err (
        message (
          lit "toolsy: tool "
          ∷ quoted (manifest t).name
          ∷ lit " is wrapped in multiple AsAsyncTool layers, which is invalid"
          ∷ []))
    else add_tool m (wrap_tool ms t)

unfoldable pub build_tools : List Middleware → ToolMap → List (Option Tool) → Result ToolMap
unfolding build_one
build_tools ms m [] = ok m
build_tools ms m (t ∷ ts) = do m' ← build_one ms m t; build_tools ms m' ts

abbrev policy_without_id : RegistryOptions → Bool
policy_without_id o =
    o.policy_id_missing || elim o.policy [ none ↦ false | some p ↦ str_eq o.policy_digest "" ]

unfoldable pub build : RegistryBuilder → Result Registry
unfolding build_tools
build b =
    if policy_without_id b.opts
    then err (message (lit "toolsy: registry policy id is required" ∷ []))
    else do
      m ← build_tools b.middlewares [] b.tools
      ok (record { tools = m; opts = b.opts; has_state = true; state_address = b.new_address })

-- The loop of subsetWithPolicy: a name that was seen is passed over.
unfoldable pub collect_tools : ToolMap → List String → ToolMap → List String → Result ToolMap
unfolding lookup_tool
collect_tools all_tools seen out [] = ok out
collect_tools all_tools seen out (name ∷ names) =
    let again = collect_tools all_tools seen out names in
    let added : Result ToolMap = elim (lookup_tool all_tools name) [
      | none ↦ err (to_error (new_tool_not_found_in_subset_error name))
      | some t ↦ collect_tools all_tools (name ∷ seen) ((name, t) ∷ out) names
    ] in
    if contains seen name then again else added

unfoldable pub subset_with_policy : Registry → Option Policy → List String → Result Registry
unfolding collect_tools compose_policies
subset_with_policy r p allowed =
    if not r.has_state
    then err (wrap (lit "toolsy: subset" ∷ []) (to_error new_registry_state_error))
    else do
      m ← collect_tools r.tools [] [] allowed
      ok (record {
        tools = m;
        opts = record r.opts { policy = compose_policies r.opts.policy p };
        has_state = true;
        state_address = r.state_address;
      })

-- tryStartExecution: the new state, unless the registry is shut down.
unfoldable pub try_start_execution : RuntimeState → Option RuntimeState
try_start_execution s = if s.closed then none else some (record s { running = s.running + 1 })

-- `running.Done()`; a call without a start before it panics, and is not made.
abbrev pub finish_execution : RuntimeState → RuntimeState
finish_execution s = record s { running = s.running - 1 }

-- The first part of Shutdown; the rest waits until `running` is 0.
unfoldable pub close_registry : RuntimeState → RuntimeState
close_registry s = record s { closed = true }
