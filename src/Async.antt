-- ===== src/Async.antt =====
-- async.go: a tool that answers at once and runs in the background, and what its callback is told.
--
-- The clock is not modelled: a timeout shows as the error that the tool returns.
pub mod Collection
mod Tests
use toolsy.Prelude.{
  ℕ, ◌+◌, String, Bool, true, false, Option, none, some, List, [], ◌∷◌, ◌++◌, length, leb,
  if◌then◌else◌,
}
use toolsy.Errors.{
  GoError, lit, amount, message, wrap_before, sentinel, async_collected_limit_exceeded, ToolError,
  to_error, new_internal_error, wrap_yield_error, Result, ok, err,
}
use toolsy.Chunk.{Codec, Chunk, empty_chunk, result, raw, mime_json}
use toolsy.Chunk.Prepare.{prepare_chunk, execution_error_from_chunk}
use toolsy.Tool.{Script, done, emit, spawn}
use toolsy.Tool.Run.{Exit, returned, panicked, run_script}
use toolsy.Session.Outcome.{tool_error_from_run_call}

-- What the run of an async tool meets: `ctx.Err()` at its two checks, the task's id or the error of the
-- random source, and the encoded payload of AsyncAccepted.
pub record Accepting : Type 0 where
  pub ctx_err : Option GoError
  pub task_id : Result String
  pub ctx_err_later : Option GoError
  pub accepted_json : String → List ℕ

abbrev pub accepted_chunk : List ℕ → Chunk
accepted_chunk bs = record empty_chunk { event = result; payload = raw bs; mime_type = mime_json }

-- The yield-guard: the background work starts only if the accepted chunk was taken.
abbrev pub after_accepted : Script → Option GoError → Script
after_accepted background (some e) = done (some (wrap_yield_error e))
after_accepted background none = spawn background (done none)

abbrev pub yield_accepted : Script → Result Chunk → Script
yield_accepted background (err e) = done (some e)
yield_accepted background (ok c) = emit c (after_accepted background)

abbrev pub accept : Codec → Accepting → Script → Result String → Script
accept codec a background (err e) = done (some e)
accept codec a background (ok id) = elim a.ctx_err_later [
  | some e ↦ done (some e)
  | none ↦ yield_accepted background (prepare_chunk codec (accepted_chunk (a.accepted_json id)))
]

-- asyncTool.Execute; `background` is the run of the next tool.
unfoldable pub execute_async : Codec → Accepting → Script → Script
execute_async codec a background = elim a.ctx_err [
  | some e ↦ done (some e)
  | none ↦ accept codec a background a.task_id
]

-- `collected` and `backgroundYieldErr`
pub record Collected : Type 0 where
  pub chunks : List Chunk
  pub yield_err : Option GoError

abbrev pub nothing_collected : Collected
nothing_collected = record { chunks = []; yield_err = none }

abbrev pub refuse : GoError → Collected → Collected × Option GoError
refuse e s = ((elim s.yield_err [ some f ↦ s | none ↦ record s { yield_err = some e } ]), some e)

abbrev pub collect_prepared : Collected → Result Chunk → Collected × Option GoError
collect_prepared s (err e) = refuse e s
collect_prepared s (ok c) = (record s { chunks = s.chunks ++ c ∷ [] }, none)

-- The collectYield of runBackground
unfoldable pub collect_yield : Codec → ℕ → Collected → Chunk → Collected × Option GoError
collect_yield codec max s c =
    if leb max (length s.chunks)
    then refuse
        (wrap_before (sentinel async_collected_limit_exceeded)
          (lit "(" ∷ amount max ∷ lit ")" ∷ []))
        s
    else collect_prepared s (prepare_chunk codec c)

-- executionErrFromCollected
unfoldable pub execution_err_from_collected : Codec → List Chunk → Option GoError
execution_err_from_collected codec [] = none
execution_err_from_collected codec (c ∷ cs) =
    let rest = execution_err_from_collected codec cs in
    if c.is_error then some (to_error (execution_error_from_chunk codec c)) else rest

-- The execution error of a run: its own, the first refusal or the first error chunk; a panic is an internal
-- error.
unfoldable pub execution_err : Codec → Collected → Exit → Option GoError
unfolding execution_err_from_collected
execution_err codec s (panicked p) =
    some (to_error (new_internal_error (message (lit "panic: " ∷ lit p ∷ []))))
execution_err codec s (returned (some e)) = some e
execution_err codec s (returned none) = elim s.yield_err [
  | some e ↦ some e
  | none ↦ execution_err_from_collected codec s.chunks
]

abbrev error_for_callback : GoError → Option ToolError → GoError
error_for_callback e none = e
error_for_callback e (some te) = to_error te

-- invokeOnComplete: what the callback is told.
unfoldable pub callback_error : Option GoError → Option GoError
callback_error none = none
callback_error (some e) = some (error_for_callback e (tool_error_from_run_call e))

-- What the callback gets: the chunks and the error.
pub record Completion : Type 0 where
  pub chunks : List Chunk
  pub error : Option GoError

abbrev pub complete : Codec → Collected × Exit → Completion
complete codec (s, x) = record {
  chunks = s.chunks;
  error = callback_error (execution_err codec s x);
}

-- Background work that the background run starts itself goes on by itself.
abbrev pub keep_on : Collected → Script → Collected
keep_on s b = s

unfoldable pub run_background : Codec → ℕ → Script → Completion
unfolding collect_yield execution_err callback_error run_script
run_background codec max t =
    complete codec (run_script (collect_yield codec max) keep_on t nothing_collected)
