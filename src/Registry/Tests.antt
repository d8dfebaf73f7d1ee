-- ===== src/Registry/Tests.antt =====
-- The theorems about the registry at a small registry.
use toolsy.Prelude.{
  Bool, ◌+◌, ◌≡◌, ◌⊎◌, refl, ◌≢◌, ◌↔◌, String, true, false, Option, none, some, List, [], ◌∷◌, All,
  length, contains, is_empty, if◌then◌else◌,
}
use toolsy.Errors.{
  GoError, sentinel, deadline_exceeded, as_tool_error, to_error, new_timeout_error_from,
  new_policy_denied_error_from, timeout,
}
use toolsy.Chunk.Prepare.{
  prepare_chunk, normalize_error_chunk, validate_chunk, validate_data, validate_error_chunk,
  with_envelope,
}
use toolsy.Chunk.Wire.{new_error_chunk_from_err, marshal_tool_error_wire}
use toolsy.Chunk.{Chunk}
use toolsy.Tool.{manifest, has_requirements}
use toolsy.Tool.Run.{returned, run_script}
use toolsy.Policy.{
  PolicyRequest, evaluate_policy, enforce_requirements_policy, enforce_runtime_requirements,
  compose_policies,
}
use toolsy.Registry.{
  RuntimeState, RegistryBuilder, build, build_one, build_tools, add_tool, lookup_tool,
  subset_with_policy, collect_tools, try_start_execution, wrap_tool,
}
use toolsy.Registry.Execute.{
  bound_call, Progress, execute_with_summary, wrap_yield_with_call_meta, authorize, validate_input,
  gate, new_progress, run_found, run_gated, conclude, account_delivered_chunk, execute_tool,
  normalize_execution_interrupt,
}
use toolsy.Registry.Building.{IsRegistered, build-IsRegistered}
use toolsy.Registry.Delivery.{execute_with_summary-IsAccounted, malformed_untagged}
use toolsy.Registry.Offers.{IsAccounted, IsOffered, recording}
use toolsy.Registry.Gates.{IsChecked, IsRefusal, IsUntouched, execute_with_summary-refused}
use toolsy.Registry.Lifecycle.{running-execute_with_summary}
use toolsy.Registry.Iteration.{Handed, keeping, IsOrderly, execute_iter, execute_iter-IsOrderly}
use toolsy.Registry.Subsets.{subset_with_policy-tools}
use toolsy.Samples.{
  codec, host, registry, guarded, call, echo, options, no_interrupt, running_state, takes_all,
  counting, malformed_chunk,
}

abbrev builder : RegistryBuilder
builder = record { tools = some echo ∷ []; middlewares = []; opts = options; new_address = 7 }

build-IsRegistered_example :
    All (IsRegistered [] registry.tools) (some echo ∷ [])
    × (length registry.tools ≡ length builder.tools)
unfolding build build_tools build_one add_tool lookup_tool wrap_tool manifest
build-IsRegistered_example = build-IsRegistered builder {r = registry} refl

execute_with_summary-IsAccounted_example :
    let e =
      execute_with_summary host registry no_interrupt
        (recording takes_all)
        true
        call
        running_state
        [] in
    IsAccounted codec "call-1" "echo" e.progress.consumer e.progress.summary
    × ((p : Progress (List Chunk)) (k : Chunk)
        → IsOffered "call-1" "echo" p.consumer k (
            wrap_yield_with_call_meta host registry no_interrupt
              (recording takes_all)
              (bound_call host registry no_interrupt (recording takes_all) call)
              p
              k))
execute_with_summary-IsAccounted_example =
    execute_with_summary-IsAccounted host registry no_interrupt takes_all true call running_state

-- A state of a call before its first chunk.
abbrev fresh : Progress (List Chunk)
fresh = new_progress host registry no_interrupt (recording takes_all) []

malformed_untagged_example :
    let took =
      (wrap_yield_with_call_meta host registry no_interrupt
        (recording takes_all)
        call
        fresh
        malformed_chunk).0.consumer in
    (rest : List Chunk) × (c : Chunk) × (took ≡ c ∷ rest) × (c.call_id ≡ "") × (c.tool_name ≡ "")
malformed_untagged_example =
    malformed_untagged host registry no_interrupt takes_all call fresh malformed_chunk refl refl
      refl refl

running-execute_with_summary_example :
    let e = execute_with_summary host registry no_interrupt counting true call running_state 0 in
    (e.runtime.running ≡ 0 + (if is_empty e.progress.background then 0 else 1))
    × (e.runtime.closed ≡ false)
running-execute_with_summary_example =
    running-execute_with_summary host registry no_interrupt counting true call running_state 0

abbrev closed_state : RuntimeState
closed_state = record { closed = true; running = 0 }

-- The error with which the authorizer refuses.
abbrev refusal : GoError
refusal = to_error (new_policy_denied_error_from (sentinel timeout))

execute_with_summary-refused_example :
    IsChecked host guarded no_interrupt counting true call running_state 0
      (bound_call host guarded no_interrupt counting call)
      echo
    ⊎ ((e : GoError) × IsRefusal host guarded no_interrupt counting true call running_state 0
          (bound_call host guarded no_interrupt counting call)
          echo
          e
        × IsUntouched host guarded no_interrupt counting true call running_state 0 e)
unfolding lookup_tool
execute_with_summary-refused_example =
    execute_with_summary-refused host guarded no_interrupt counting true call running_state 0
      {t = echo} refl refl refl

guarded_refuses :
    (execute_with_summary host guarded no_interrupt counting true call running_state 0).exit
    ≡ returned (some refusal)
unfolding execute_with_summary run_found conclude run_gated gate authorize
    enforce_requirements_policy has_requirements as_tool_error lookup_tool manifest
    try_start_execution
guarded_refuses = refl

-- A deadline, and what it becomes.
abbrev deadline : GoError
deadline = sentinel deadline_exceeded

abbrev deadline_timeout : GoError
deadline_timeout = to_error (new_timeout_error_from deadline true)

subset_with_policy-tools_example :
    ((n : String)
      → lookup_tool registry.tools n
        ≡ (if contains ("echo" ∷ "echo" ∷ []) n then lookup_tool registry.tools n else none))
    × ((n : String)
        → contains ("echo" ∷ "echo" ∷ []) n ≡ true
        → lookup_tool registry.tools n ≢ none)
    × ((req : PolicyRequest)
        → (evaluate_policy none req ≡ none)
          ↔ ((evaluate_policy none req ≡ none) × (evaluate_policy none req ≡ none)))
    × (true ≡ true)
    × (registry.state_address ≡ 7)
unfolding subset_with_policy collect_tools lookup_tool compose_policies
subset_with_policy-tools_example =
    subset_with_policy-tools registry none ("echo" ∷ "echo" ∷ []) {v = registry} refl

-- The call of the sample delivers two results and an error chunk, and releases its execution.
executed_sample :
    let e = execute_with_summary host registry no_interrupt counting true call running_state 0 in
    (e.progress.consumer ≡ 3)
    × (e.progress.summary.chunks_delivered ≡ 2)
    × (e.progress.summary.total_bytes ≡ 3)
    × (e.progress.summary.error_chunks ≡ 1)
    × (e.runtime ≡ running_state)
unfolding execute_with_summary try_start_execution lookup_tool run_found run_gated conclude gate
    authorize validate_input enforce_requirements_policy has_requirements evaluate_policy manifest
    enforce_runtime_requirements execute_tool run_script wrap_yield_with_call_meta
    account_delivered_chunk prepare_chunk normalize_error_chunk validate_chunk validate_data
    validate_error_chunk with_envelope new_error_chunk_from_err normalize_execution_interrupt
    marshal_tool_error_wire
executed_sample = (refl, refl, refl, refl, refl)

-- A consumer that wants one chunk more after the first.
abbrev one_more : Handed → Chunk → Option GoError → Bool
one_more seen c e = is_empty seen

execute_iter-IsOrderly_example :
    IsOrderly one_more
      (execute_iter (keeping one_more) host registry no_interrupt call running_state [])
execute_iter-IsOrderly_example =
    execute_iter-IsOrderly one_more host registry no_interrupt call running_state
