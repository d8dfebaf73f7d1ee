-- ===== src/Registry/Keeps.antt =====
-- registry.go (executeWithSummary): what a consumer keeps of its own state through a call.
use toolsy.Prelude.{
  ℕ, suc, ◌≡◌, ◌⊎◌, inl, inr, Bool, Option, none, some, arith, Option-cases, Bool-cases,
}
use toolsy.Errors.{GoError, to_error, new_registry_state_error, new_shutdown_error, Result, ok, err}
use toolsy.Chunk.{Chunk}
use toolsy.Chunk.Prepare.{prepare_chunk}
use toolsy.Tool.{Tool}
use toolsy.Tool.Run.{Exit, returned, panicked, run_script-keeps}
use toolsy.Registry.{Registry, RuntimeState, lookup_tool, try_start_execution, finish_execution}
use toolsy.Registry.Execute.{
  Host, ToolCall, Progress, account_delivered_chunk, taken, offer, with_call_meta,
  wrap_yield_with_call_meta, gated, run_gated, run_found, conclude, refused, unknown_tool_error,
  execute_with_summary, bound_call,
}

-- A call either is refused before its tool runs, or is the run of a tool.
pub execute_with_summary-cases :
    {S : Type 0} (host : Host) (r : Registry) (interrupt : ℕ → Option GoError)
    (yield : S → Chunk → S × Option GoError) (hook : Bool) (call : ToolCall)
    (runtime : RuntimeState) (s : S)
    → let run = execute_with_summary host r interrupt yield hook call runtime s in
      ((e : GoError) × (after : RuntimeState) × (run ≡ refused host r interrupt yield s after e))
      ⊎ ((started : RuntimeState) × (t : Tool) × (run
            ≡ run_found host r interrupt yield hook call started t s))
unfolding execute_with_summary
execute_with_summary-cases host r interrupt yield hook call runtime s =
    elim (Bool-cases r.has_state) [
      | inr zero_value ↦
          inl (to_error new_registry_state_error, runtime, ground (arith, zero_value))
      | inl state ↦ elim (Option-cases (try_start_execution runtime)) [
        | inl closed ↦ inl (to_error new_shutdown_error, runtime, ground (arith, state, closed))
        | inr (started, starts) ↦ elim (Option-cases (lookup_tool r.tools call.tool_name)) [
          | inl unknown ↦ inl (
            unknown_tool_error r call,
            finish_execution started,
            ground (arith, state, starts, unknown),
          )
          | inr (t, found) ↦ inr (started, t, ground (arith, state, starts, found))
        ]
      ]
    ]

module _ {S : Type 0} (host : Host) (r : Registry) (interrupt : ℕ → Option GoError)
    (yield : S → Chunk → S × Option GoError) (P : S → Type 0)
    (step : (s : S) (c : Chunk) → P s → P (yield s c).0) where
  account-keeps :
      (c : Chunk) (p : Progress S)
      → P p.consumer
      → P (account_delivered_chunk host r interrupt yield c p).consumer
  unfolding account_delivered_chunk
  account-keeps c p h = elim (Bool-cases c.is_error) [
    | inl failed ↦ rw (failed, account_delivered_chunk) h
    | inr normal ↦ rw (normal, account_delivered_chunk) h
  ]

  taken-keeps :
      (c : Chunk) (p : Progress S) (a : S × Option GoError)
      → P a.0
      → P (taken host r interrupt yield c p a).0.consumer
  taken-keeps c p (s, some e) h = h
  taken-keeps c p (s, none) h = account-keeps c (record p { consumer = s }) h

  offer-keeps :
      (p : Progress S) (c : Result Chunk)
      → P p.consumer
      → P (offer host r interrupt yield p c).0.consumer
  offer-keeps p (err e) h = h
  offer-keeps p (ok c) h = taken-keeps c p (yield p.consumer c) (step p.consumer c h)

  deliver-keeps :
      (call : ToolCall) (p : Progress S) (c : Chunk)
      → P p.consumer
      → P (wrap_yield_with_call_meta host r interrupt yield call p c).0.consumer
  unfolding wrap_yield_with_call_meta
  deliver-keeps call p c h = elim (Option-cases (interrupt p.moment)) [
    | inr (e, stopped) ↦ rw (stopped, wrap_yield_with_call_meta) h
    | inl goes_on ↦
        rw (goes_on, wrap_yield_with_call_meta)
          (offer-keeps (record p { moment = suc p.moment })
            (prepare_chunk host.codec (with_call_meta host r interrupt yield call c)) h)
  ]

  gated-keeps :
      (p : Progress S) (g : Option GoError) (run : Progress S × Exit)
      → P p.consumer
      → P run.0.consumer
      → P (gated p g run).0.consumer
  gated-keeps p (some e) run h k = h
  gated-keeps p none (q, returned e) h k = k
  gated-keeps p none (q, panicked x) h k = k

  run_found-keeps :
      (hook : Bool) (call : ToolCall) (started : RuntimeState) (t : Tool) (s : S)
      → P s
      → P (run_found host r interrupt yield hook call started t s).progress.consumer
  unfolding run_found conclude run_gated
  run_found-keeps hook call started t s h = gated-keeps _ _ _ h (
      run_script-keeps _ _ (λ p. P p.consumer)
        (deliver-keeps (bound_call host r interrupt yield call)) (λ q b k. k) _ _ h)

  -- What every delivery keeps of the consumer's state holds after the call.
  pub execute_with_summary-keeps :
      (hook : Bool) (call : ToolCall) (runtime : RuntimeState) (s : S)
      → P s
      → P (execute_with_summary host r interrupt yield hook call runtime s).progress.consumer
  execute_with_summary-keeps hook call runtime s h =
      elim (execute_with_summary-cases host r interrupt yield hook call runtime s) [
        | inl (e, started, refuses) ↦ rw refuses h
        | inr (started, t, ran) ↦ rw ran (run_found-keeps hook call started t s h)
      ]
