-- ===== src/Registry/Lifecycle.antt =====
-- registry.go: what a call does to the runtime state that all views share, on every path.
use toolsy.Prelude.{ℕ, ◌+◌, ◌≡◌, Bool, true, false, Option, some, arith, is_empty, if◌then◌else◌}
use toolsy.Errors.{GoError, to_error, new_shutdown_error}
use toolsy.Chunk.{Chunk}
use toolsy.Tool.Run.{returned}
use toolsy.Registry.{Registry, RuntimeState, try_start_execution}
use toolsy.Registry.Execute.{
  Host, ToolCall, Executed, conclude, run_found, execute_with_summary, new_progress,
}

module _ {S : Type 0} (host : Host) (r : Registry) (interrupt : ℕ → Option GoError)
    (yield : S → Chunk → S × Option GoError) (hook : Bool) (call : ToolCall)
    (runtime : RuntimeState) (s : S) where
  abbrev executed : Executed S
  executed = execute_with_summary host r interrupt yield hook call runtime s

  -- A call leaves the count of running executions as it was, or one higher while background work goes
  -- on, whether the tool is found, is denied, returns, fails or panics; and it opens and closes nothing.
  pub running-execute_with_summary :
      (executed.runtime.running
        ≡ runtime.running + (if is_empty executed.progress.background then 0 else 1))
      × (executed.runtime.closed ≡ runtime.closed)
  unfolding execute_with_summary run_found conclude try_start_execution
  running-execute_with_summary = ground arith

  -- Once the registry is closed every call is refused with the shutdown error before its tool is looked
  -- up: the consumer is not called, no hook runs and the runtime state stays as it is.
  pub closed-execute_with_summary :
      r.has_state ≡ true
      → runtime.closed ≡ true
      → (executed.exit ≡ returned (some (to_error new_shutdown_error)))
        × (executed.progress ≡ new_progress host r interrupt yield s)
        × (executed.runtime ≡ runtime)
        × (executed.summary_ready ≡ false)
  unfolding execute_with_summary try_start_execution
  closed-execute_with_summary state closed = ground arith
