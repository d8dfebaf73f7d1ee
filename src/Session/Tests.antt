-- ===== src/Session/Tests.antt =====
-- The theorems about sessions at one that is forced to its tool and has two steps.
use toolsy.Prelude.{
  ◌≡◌, refl, ◌≢◌, ◌⊎◌, false, true, String, contains, Option, none, List, [], ◌∷◌, arith, ltb, min,
  if◌then◌else◌,
}
use toolsy.Errors.{GoError}
use toolsy.Chunk.{Chunk}
use toolsy.Tool.{manifest, has_requirements}
use toolsy.Tool.Run.{run_script}
use toolsy.Registry.{get_tool, lookup_tool, try_start_execution}
use toolsy.Registry.Execute.{
  execute_with_summary, run_found, run_gated, conclude, gate, authorize, validate_input,
  execute_tool, wrap_yield_with_call_meta, account_delivered_chunk, normalize_execution_interrupt,
}
use toolsy.Policy.{enforce_requirements_policy, evaluate_policy, enforce_runtime_requirements}
use toolsy.Chunk.Prepare.{
  prepare_chunk, normalize_error_chunk, validate_chunk, validate_data, validate_error_chunk,
  with_envelope,
}
use toolsy.Chunk.Wire.{new_error_chunk_from_err, marshal_tool_error_wire}
use toolsy.Session.{
  SessionTrack, enforce_run_policy, validate_run_policy, validate_tool_names,
  validate_run_policy_relations, required_among, consume_step, execute, stopped, run_in, env_error,
}
use toolsy.Session.Budget.{consume_steps, consume_steps-granted}
use toolsy.Session.Policy.{IsAllowed, validate_run_policy-admits, execute-admits}
use toolsy.Session.Outcome.{
  Account, account_run_call_chunk, account_run_call_result, conclude_run_call,
  finalize_run_call_outcome, new_outcome, undecided, run_call, run_call_returned, ToolOutcome,
  RunCallResult, run_call_panicked,
}
use toolsy.Session.Results.{IsCoherent, run_call-IsCoherent}
use toolsy.Samples.{
  host, registry, session, run_policy, call, no_interrupt, running_state, counting, progress_chunk,
  result_chunk, malformed_chunk,
}

consume_steps-granted_example :
    let (t, granted) = consume_steps 3 (record { count = 0; max_steps = 2 }) in
    (t.count ≡ 3) × (t.max_steps ≡ 2) × (granted ≡ (if ltb 0 2 then min 3 2 else 3))
consume_steps-granted_example = consume_steps-granted 2 (omega arith) 3 (omega arith)

validate_run_policy-admits_example :
    (run_policy.forced_tool ≢ "" → enforce_run_policy run_policy run_policy.forced_tool ≡ none)
    × (run_policy.forced_tool ≡ ""
        → (name : String) → contains run_policy.required_tools name ≡ true
        → enforce_run_policy run_policy name ≡ none)
unfolding validate_run_policy validate_tool_names validate_run_policy_relations required_among
validate_run_policy-admits_example = validate_run_policy-admits run_policy refl

execute-admits_example :
    let run = execute host no_interrupt counting session call running_state 0 in
    (IsAllowed run_policy "echo"
      × ((consume_step session.track).1 ≡ none)
      × (env_error session none ≡ none)
      × (run
          ≡ run_in host no_interrupt counting registry call
              (consume_step session.track).0
              running_state
              0))
    ⊎ ((e : GoError) × (t : SessionTrack) × (run
          ≡ stopped host no_interrupt counting t running_state 0 e)
        × (enforce_run_policy run_policy "echo" ≢ none → t ≡ session.track))
execute-admits_example = execute-admits host no_interrupt counting session call running_state 0 refl

abbrev chunks : List Chunk
chunks = progress_chunk ∷ result_chunk ∷ malformed_chunk ∷ progress_chunk ∷ []

abbrev account : Account
account = record { outcome = new_outcome "echo" "" undecided; terminal = false }

-- What RunCall returns at the sample.
abbrev returned_outcome : RunCallResult → ToolOutcome × Option GoError
returned_outcome (run_call_returned o e) = (o, e)
returned_outcome (run_call_panicked p) = (account.outcome, none)

abbrev ran : ToolOutcome × Option GoError
ran = returned_outcome (run_call host no_interrupt session call running_state)

run_call-IsCoherent_example : IsCoherent ran.0 ran.1
unfolding run_call execute enforce_run_policy consume_step get_tool execute_with_summary
    try_start_execution lookup_tool run_found run_gated conclude gate authorize validate_input
    enforce_requirements_policy has_requirements evaluate_policy manifest
    enforce_runtime_requirements execute_tool run_script wrap_yield_with_call_meta
    account_delivered_chunk prepare_chunk normalize_error_chunk validate_chunk validate_data
    validate_error_chunk with_envelope new_error_chunk_from_err normalize_execution_interrupt
    marshal_tool_error_wire account_run_call_chunk account_run_call_result conclude_run_call
    finalize_run_call_outcome
run_call-IsCoherent_example =
    run_call-IsCoherent host no_interrupt session registry call running_state {o = ran.0}
      {e = ran.1} refl refl
