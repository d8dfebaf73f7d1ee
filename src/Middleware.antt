-- ===== src/Middleware.antt =====
-- middleware_budget.go, middleware_error_formatter.go (WithErrorFormatter), middleware.go (WithRecovery):
-- the wrappers of a tool that change how its run ends.
pub mod Ends
pub mod Truncate
pub mod Idempotent
pub mod Replay
mod Tests
use toolsy.Prelude.{
  String, Bool, true, false, ◌||◌, Option, none, some, List, [], ◌∷◌, if◌then◌else◌,
}
use toolsy.Errors.{
  GoError, Text, lit, message, wrap, sentinel, is, stream_aborted, is_control_error,
  is_context_interrupt, is_blank, to_error, new_internal_error, new_budget_exceeded_error,
  wrap_yield_error, Result, ok, err,
}
use toolsy.Chunk.{Codec, Chunk}
use toolsy.Chunk.Wire.{new_error_chunk_from_err}
use toolsy.Chunk.Prepare.{prepare_chunk}
use toolsy.Tool.{
  Tool, wrapper, Executor, Script, done, panic, emit, spawn, ToolManifest, ToolInput, RunEnv,
  Middleware, BudgetTracker,
}

-- shouldBypassErrorFormatting
unfoldable pub should_bypass_error_formatting : GoError → Bool
should_bypass_error_formatting e =
    is_control_error e || is e stream_aborted || is_context_interrupt e

-- The end of a run that hands an error chunk to the consumer in the error's place.
abbrev pub after_yield : Option GoError → Script
after_yield none = done none
after_yield (some e) = done (some (wrap_yield_error e))

abbrev pub yield_prepared : Result Chunk → Script
yield_prepared (err e) = done (some e)
yield_prepared (ok c) = emit c after_yield

unfoldable pub yield_error : Codec → GoError → Script
yield_error codec e = yield_prepared (prepare_chunk codec (new_error_chunk_from_err codec e))

abbrev pub formatted_end : Codec → Option GoError → Script
formatted_end codec none = done none
formatted_end codec (some e) =
    if should_bypass_error_formatting e then done (some e) else yield_error codec e

-- errorFormatterTool.Execute, on the run of the next tool
unfoldable pub format_errors : Codec → Script → Script
unfolding should_bypass_error_formatting yield_error
format_errors codec (done e) = formatted_end codec e
format_errors codec (panic p) = panic p
format_errors codec (emit c k) = emit c (λ a. format_errors codec (k a))
format_errors codec (spawn b k) = spawn b (format_errors codec k)

abbrev pub with_error_formatter : Codec → Middleware
with_error_formatter codec t = wrapper (λ m next env input. format_errors codec (next env input)) t

-- recoveryTool.Execute, on the run of the next tool
unfoldable pub recover_run : Script → Script
recover_run (done e) = done e
recover_run (panic p) =
    done (some (to_error (new_internal_error (message (lit "panic: " ∷ lit p ∷ [])))))
recover_run (emit c k) = emit c (λ a. recover_run (k a))
recover_run (spawn b k) = spawn b (recover_run k)

abbrev pub with_recovery : Middleware
with_recovery t = wrapper (λ m next env input. recover_run (next env input)) t

-- What a budget's answer makes of the run of the next tool; the reason is trimmed.
abbrev pub budgeted : Codec → Script → Result (Bool × Text) → Script
budgeted codec next (err e) =
    done
      (some (to_error (new_internal_error (wrap (lit "toolsy: budget allow check failed" ∷ []) e))))
budgeted codec next (ok (true, reason)) = next
budgeted codec next (ok (false, reason)) = yield_error codec (
    to_error
      (new_budget_exceeded_error (if is_blank reason then lit "budget exceeded" ∷ [] else reason)))

-- budgetTool.Execute
unfoldable pub execute_in_budget : Codec → ToolManifest → Executor → Executor
unfolding yield_error
execute_in_budget codec m next env input = elim env.budget [
  | none ↦ next env input
  | some allow ↦ budgeted codec (next env input) (allow m input)
]

abbrev pub with_budget : Codec → Middleware
with_budget codec t = wrapper (execute_in_budget codec) t
