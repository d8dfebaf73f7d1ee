-- ===== src/Registry/Gates.antt =====
-- registry.go (runToolWithValidationAndExecute, normalizeExecutionInterrupt, executeWithSummary): when
-- a tool runs at all, and how a call ends.
use toolsy.Prelude.{
  ℕ, ◌≡◌, refl, ◌↔◌, ◌⊎◌, inl, inr, Bool, true, false, Option, none, some, List, [], ◌∷◌, ◌++◌,
  arith, Option-cases,
}
use toolsy.Errors.{
  GoError, Sentinel, canceled, is, is_context_interrupt, as_tool_error, code_timeout, ToolError,
  to_error,
}
use toolsy.Chunk.{Chunk}
use toolsy.Tool.{Tool, RunEnv, manifest}
use toolsy.Tool.Run.{Exit, returned, panicked}
use toolsy.Policy.{
  PolicyRequest, evaluate_policy, enforce_requirements_policy, enforce_runtime_requirements,
}
use toolsy.Registry.{Registry, RuntimeState, lookup_tool, try_start_execution}
use toolsy.Registry.Keeps.{execute_with_summary-cases}
use toolsy.Registry.Execute.{
  Host, ToolCall, Executed, Hook, after, gate, settle, authorize, validate_input, run_gated,
  conclude, run_found, execute_with_summary, bound_call, exec_env, normalize_execution_interrupt,
}

-- The request that the policies decide on.
abbrev pub request_of : Registry → ToolCall → Tool → PolicyRequest
request_of r call t = record {
  manifest = manifest t;
  input = call.input;
  call_context = call.call_context;
  view_id = r.opts.view_id;
}

-- A tool is let through exactly if its requirements have a policy that enforces them, the authorizer,
-- the policy and the environment allow the call, and the validator accepts its input.
pub gate-passes :
    (r : Registry) (call : ToolCall) (env : RunEnv) (t : Tool)
    → (gate r call env t ≡ none) ↔ (
        (enforce_requirements_policy (manifest t).requirements r.opts.policy ≡ none)
        × (authorize r.opts (request_of r call t) ≡ none)
        × (evaluate_policy r.opts.policy (request_of r call t) ≡ none)
        × (enforce_runtime_requirements (manifest t).requirements (some env) ≡ none)
        × (validate_input r.opts call.tool_name call.input ≡ none))
unfolding gate
gate-passes r call env t = (λ h. ground (arith, h), λ h. ground (arith, h.0, h.1, h.2, h.3, h.4))

settle-returned : (x : Exit) → (e : Option GoError) × ((settle true x).1 ≡ returned e)
settle-returned (returned e) = (e, refl)
settle-returned (panicked p) = (_, refl)

module _ {S : Type 0} (host : Host) (r : Registry) (interrupt : ℕ → Option GoError)
    (yield : S → Chunk → S × Option GoError) (hook : Bool) (call : ToolCall)
    (runtime : RuntimeState) (s : S) where
  abbrev run : Executed S
  run = execute_with_summary host r interrupt yield hook call runtime s

  -- The error of one of the five checks.
  abbrev pub IsRefusal : ToolCall → Tool → GoError → Type 0
  IsRefusal bound t e =
      (enforce_requirements_policy (manifest t).requirements r.opts.policy ≡ some e)
      ⊎ (authorize r.opts (request_of r bound t) ≡ some e)
      ⊎ ((te : ToolError) × (evaluate_policy r.opts.policy (request_of r bound t) ≡ some te)
          × (e ≡ to_error te))
      ⊎ (enforce_runtime_requirements (manifest t).requirements (some (exec_env r bound)) ≡ some e)
      ⊎ (validate_input r.opts bound.tool_name bound.input ≡ some e)

  -- The five checks of a call, all of which let it through.
  abbrev pub IsChecked : ToolCall → Tool → Type 0
  IsChecked bound t =
      (enforce_requirements_policy (manifest t).requirements r.opts.policy ≡ none)
      × (authorize r.opts (request_of r bound t) ≡ none)
      × (evaluate_policy r.opts.policy (request_of r bound t) ≡ none)
      × (enforce_runtime_requirements (manifest t).requirements (some (exec_env r bound)) ≡ none)
      × (validate_input r.opts bound.tool_name bound.input ≡ none)

  gate-IsRefusal :
      (bound : ToolCall) (t : Tool) (e : GoError)
      → gate r bound (exec_env r bound) t ≡ some e
      → IsRefusal bound t e
  unfolding gate
  gate-IsRefusal bound t e h =
      let req = request_of r bound t in
      elim (Option-cases (enforce_requirements_policy (manifest t).requirements r.opts.policy)) [
        | inr (f, a) ↦ inl (ground (arith, h, a))
        | inl a ↦ elim (Option-cases (authorize r.opts req)) [
          | inr (f, b) ↦ inr (inl (ground (arith, h, a, b)))
          | inl b ↦ elim (Option-cases (evaluate_policy r.opts.policy req)) [
            | inr (te, c) ↦ inr (inr (inl (te, c, ground (arith, h, a, b, c))))
            | inl c ↦
                elim (Option-cases (
                  enforce_runtime_requirements (manifest t).requirements
                    (some (exec_env r bound)))) [
                      | inr (f, d) ↦ inr (inr (inr (inl (ground (arith, h, a, b, c, d)))))
                      | inl d ↦ inr (inr (inr (inr (ground (arith, h, a, b, c, d)))))
                    ]
          ]
        ]
      ]

  -- What a call comes to that ends with an error before its tool.
  abbrev pub IsUntouched : GoError → Type 0
  IsUntouched e =
      (run.exit ≡ returned (some e))
      × (run.progress.consumer ≡ s)
      × (run.progress.background ≡ [])
      × (run.progress.summary.error ≡ some e)
      × (run.progress.summary.chunks_delivered ≡ 0)
      × (run.progress.summary.error_chunks ≡ 0)
      × (run.runtime ≡ runtime)

  refused-IsUntouched :
      {t : Tool} {e : GoError}
      → r.has_state ≡ true
      → runtime.closed ≡ false
      → lookup_tool r.tools call.tool_name ≡ some t
      → (let bound = bound_call host r interrupt yield call in gate r bound (exec_env r bound) t)
        ≡ some e
      → IsUntouched e
  unfolding execute_with_summary run_found conclude run_gated try_start_execution
  refused-IsUntouched state running found denies = ground (arith, state, running, found, denies)

  -- A call of a known tool on a registry that is not shut down either passes all five checks: its
  -- requirements have a policy that enforces them, the authorizer, the policy and the environment allow
  -- it, and the validator accepts its input; or it ends with the error of one of them and never runs the
  -- tool: the consumer's state is as it was, no background work was started, the summary holds the error
  -- and counts nothing, and the registry's runtime state is as before the call.
  pub execute_with_summary-refused :
      {t : Tool}
      → r.has_state ≡ true
      → runtime.closed ≡ false
      → lookup_tool r.tools call.tool_name ≡ some t
      → IsChecked (bound_call host r interrupt yield call) t
        ⊎ ((e : GoError) × IsRefusal (bound_call host r interrupt yield call) t e × IsUntouched e)
  execute_with_summary-refused {t} state running found =
      let bound = bound_call host r interrupt yield call in
      elim (Option-cases (gate r bound (exec_env r bound) t)) [
        | inl passes ↦ inl ((gate-passes r bound (exec_env r bound) t).0 passes)
        | inr (e, denies) ↦
            inr (e, gate-IsRefusal bound t e denies, refused-IsUntouched state running found denies)
      ]

  -- With panic recovery no panic of a tool or of a consumer leaves a call.
  pub execute_with_summary-recovers :
      r.opts.recover_panics ≡ true → (e : Option GoError) × (run.exit ≡ returned e)
  unfolding run_found conclude
  execute_with_summary-recovers recovers =
      elim (execute_with_summary-cases host r interrupt yield hook call runtime s) [
        | inl (e, rt, refuses) ↦ (some e, rw refuses)
        | inr (started, t, ran) ↦ rw ran (rw recovers (settle-returned _))
      ]

  -- The trace of a call that was started ends with one call of the after-hook, if there is one, which sees
  -- the final summary.
  pub execute_with_summary-after :
      run.summary_ready ≡ true
      → hook ≡ true
      → r.opts.on_after ≡ true
      → (earlier : List Hook) × (run.progress.trace ≡ earlier ++ after run.progress.summary ∷ [])
  unfolding run_found conclude
  execute_with_summary-after ready hooked on =
      elim (execute_with_summary-cases host r interrupt yield hook call runtime s) [
        | inl (e, rt, refuses) ↦ absurd (cc (rw refuses at ready))
        | inr (started, t, ran) ↦ rw ran (rw (hooked, on) (_, refl))
      ]

module _ (e : GoError) where
  -- The error of a run is normalised to itself if it is a cancellation or no interrupt; else to a timeout
  -- error that is a timeout for `errors.Is` and keeps the cause's chain. To normalise twice is to
  -- normalise once.
  pub normalize_execution_interrupt-timeout :
      (n : GoError)
      → normalize_execution_interrupt (some e) ≡ some n
      → ((s : Sentinel) → is e s ≡ true → is n s ≡ true)
        × (is_context_interrupt n ≡ is_context_interrupt e)
        × (is e canceled ≡ false
            → is_context_interrupt e ≡ true
            → (te : ToolError) × (as_tool_error n ≡ some te) × (te.code ≡ code_timeout))
        × (normalize_execution_interrupt (some n) ≡ some n)
  unfolding normalize_execution_interrupt is_context_interrupt is as_tool_error
  normalize_execution_interrupt-timeout n h = (
    (λ s k. ground (arith, h, k)),
    ground (arith, h),
    (λ alive interrupts. elim (Option-cases (as_tool_error n)) [
      | inl nothing ↦ absurd (ground (arith, h, alive, interrupts, nothing))
      | inr (te, found) ↦ (te, found, ground (arith, h, alive, interrupts, found))
    ]),
    ground (arith, h),
  )
