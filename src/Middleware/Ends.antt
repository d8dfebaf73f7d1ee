-- ===== src/Middleware/Ends.antt =====
-- middleware_budget.go, middleware_error_formatter.go, middleware.go: how a wrapped run ends.
use toolsy.Prelude.{
  ◌≡◌, refl, inl, inr, true, false, Option, none, some, [], ◌∷◌, arith, Bool-cases, if◌then◌else◌,
}
use toolsy.Errors.{
  GoError, Text, is_blank, lit, to_error, is, wrap_yield_error, new_budget_exceeded_error, ok,
}
use toolsy.Chunk.{Codec, Chunk}
use toolsy.Chunk.Wire.{new_error_chunk_from_err}
use toolsy.Chunk.Contract.{prepare_chunk-new_error_chunk}
use toolsy.Tool.{
  Script, done, panic, emit, spawn, Executor, ToolManifest, ToolInput, RunEnv, BudgetTracker,
}
use toolsy.Tool.Run.{Exit, returned, run_script}
use toolsy.Middleware.{
  should_bypass_error_formatting, after_yield, yield_error, formatted_end, format_errors,
  recover_run, execute_in_budget,
}

module _ {S : Type 0} (codec : Codec) (deliver : S → Chunk → S × Option GoError)
    (start : S → Script → S) where
  -- An error that a formatted run may end with.
  abbrev Passes : Exit → Type 0
  Passes x = (e : GoError) → x ≡ returned (some e) → should_bypass_error_formatting e ≡ true

  after_yield-Passes :
      (a : Option GoError) (s : S) → Passes (run_script deliver start (after_yield a) s).1
  unfolding run_script should_bypass_error_formatting is
  after_yield-Passes none s e h = absurd (cc)
  after_yield-Passes (some f) s e h = ground (arith, h)

  yield_error-Passes :
      (e : GoError) (s : S) → Passes (run_script deliver start (yield_error codec e) s).1
  unfolding yield_error run_script
  yield_error-Passes e s = rw (prepare_chunk-new_error_chunk codec e) (
      after_yield-Passes (deliver s (new_error_chunk_from_err codec e)).1
        (deliver s (new_error_chunk_from_err codec e)).0)

  end-Passes :
      (x : Option GoError) (s : S) → Passes (run_script deliver start (formatted_end codec x) s).1
  unfolding run_script
  end-Passes none s = λ e h. absurd (cc)
  end-Passes (some f) s = elim (Bool-cases (should_bypass_error_formatting f)) [
    | inl bypass ↦ rw bypass (λ e h. ground (arith, h, bypass))
    | inr formats ↦ rw formats (yield_error-Passes f s)
  ]

  -- Whatever the tool does, a run with the error formatter returns no error but a control signal, a stream
  -- abort or an interrupt of its context.
  pub format_errors-bypass :
      (t : Script) (s : S) (e : GoError)
      → (run_script deliver start (format_errors codec t) s).1 ≡ returned (some e)
      → should_bypass_error_formatting e ≡ true
  unfolding format_errors run_script
  format_errors-bypass (done x) s e h = end-Passes x s e h
  format_errors-bypass (panic p) s e h = absurd (cc)
  format_errors-bypass (emit c k) s e h =
      format_errors-bypass (k (deliver s c).1) (deliver s c).0 e h
  format_errors-bypass (spawn b k) s e h = format_errors-bypass k (start s b) e h

  -- A run with recovery does not panic, and is the run without it where that does not panic either.
  pub recover_run-returns :
      (t : Script) (s : S)
      → let plain = run_script deliver start t s in
        let safe = run_script deliver start (recover_run t) s in
        ((e : Option GoError) × (safe.1 ≡ returned e))
        × (safe.0 ≡ plain.0)
        × ((e : Option GoError) → plain.1 ≡ returned e → safe.1 ≡ returned e)
  unfolding recover_run run_script
  recover_run-returns (done x) s = ((x, refl), refl, λ e h. h)
  recover_run-returns (panic p) s = ((_, refl), refl, λ e h. absurd (cc))
  recover_run-returns (emit c k) s = recover_run-returns (k (deliver s c).1) (deliver s c).0
  recover_run-returns (spawn b k) s = recover_run-returns k (start s b)

  after_yield-run :
      (a : S × Option GoError)
      → run_script deliver start (after_yield a.1) a.0
        ≡ (a.0, returned (elim a.1 [ none ↦ none | some f ↦ some (wrap_yield_error f) ]))
  unfolding run_script
  after_yield-run (s, none) = refl
  after_yield-run (s, some f) = refl

  -- Where the budget refuses the call, the tool does not run: the consumer is handed one error chunk, and
  -- the run returns nil if it takes the chunk and a stream abort if it does not.
  pub execute_in_budget-refused :
      (m : ToolManifest) (next : Executor) (env : RunEnv) (input : ToolInput) (s : S)
      {allow : BudgetTracker} {reason : Text}
      → env.budget ≡ some allow
      → allow m input ≡ ok (false, reason)
      → let e = to_error (
          new_budget_exceeded_error
            (if is_blank reason then lit "budget exceeded" ∷ [] else reason)) in
        let answer = deliver s (new_error_chunk_from_err codec e) in
        run_script deliver start (execute_in_budget codec m next env input) s
        ≡ (answer.0, returned (elim answer.1 [ none ↦ none | some f ↦ some (wrap_yield_error f) ]))
  unfolding execute_in_budget yield_error run_script
  execute_in_budget-refused m next env input s {allow} {reason} tracked refuses =
      let e = to_error (
        new_budget_exceeded_error
          (if is_blank reason then lit "budget exceeded" ∷ [] else reason)) in
      rw (tracked, refuses)
        (rw (prepare_chunk-new_error_chunk codec e)
          (after_yield-run (deliver s (new_error_chunk_from_err codec e))))
