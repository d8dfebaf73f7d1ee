-- ===== src/Batch.antt =====
-- registry.go (batchYieldGate, handleBatchToolError, runBatchStreamWorker, ExecuteBatchStream): many calls
-- at once over one `yield`.
--
-- The workers share the gate. A `safeYield` takes three steps, between which the mutex keeps other workers
-- from the gate, but not from an abort or a suspension, nor the caller's context from its end: its second
-- check, the consumer's call, and the record of the consumer's error. Its first check changes nothing.
pub mod Steps
pub mod Worker
mod Tests
use toolsy.Prelude.{
  ℕ, ◌+◌, String, Bool, true, false, not, ◌&&◌, ◌||◌, Option, none, some, List, [], ◌∷◌, ◌++◌,
  str_eq, if◌then◌else◌, is_empty,
}
use toolsy.Errors.{
  GoError, sentinel, canceled, is, stream_aborted, is_control_error, is_context_interrupt,
  wrap_yield_error, Result, ok, err,
}
use toolsy.Chunk.{Chunk}
use toolsy.Chunk.Wire.{new_error_chunk_from_err}
use toolsy.Chunk.Prepare.{prepare_chunk}
use toolsy.Registry.{Registry, RuntimeState}
use toolsy.Registry.Execute.{
  Host, ToolCall, ExecutionSummary, Hook, after, Executed, execute_with_summary,
}
use toolsy.Tool.Run.{Exit, returned, panicked}

-- Who holds `yieldMu`: nobody, a worker whose chunk passed the second check, or one that has the
-- consumer's error and did not record it yet.
pub data Turn : Type 0 where
  free : Turn
  let_in : Chunk → Turn
  answered : GoError → Turn

-- The caller's context, `streamAbortErr`, `suspendErr`, the mutex and the consumer's state.
pub record BatchState (S : Type 0) : Type 0 where
  pub ctx_err : Option GoError
  pub stream_abort_err : Option GoError
  pub suspend_err : Option GoError
  pub turn : Turn
  pub consumer : S

module _ {S : Type 0} (yield : S → Chunk → S × Option GoError) where
  -- batchCtx.Err(): it is cancelled by the first stream abort, or with the caller's context.
  abbrev batch_ctx_err : BatchState S → Option GoError
  batch_ctx_err b = elim b.ctx_err [
    | some e ↦ some e
    | none ↦ elim b.stream_abort_err [ some a ↦ some (sentinel canceled) | none ↦ none ]
  ]

  unfoldable pub abort_or_batch_done : BatchState S → Option GoError
  abort_or_batch_done b = elim b.stream_abort_err [ some e ↦ some e | none ↦ batch_ctx_err b ]

  -- recordStreamAbort of an error that is not nil: only the first counts.
  unfoldable pub record_stream_abort : GoError → BatchState S → BatchState S
  record_stream_abort e b = elim b.stream_abort_err [
    | some a ↦ b
    | none ↦ record b { stream_abort_err = some e }
  ]

  -- The second check of safeYield: the chunk is let in.
  unfoldable pub enter : BatchState S → Chunk → BatchState S × Option GoError
  unfolding abort_or_batch_done
  enter b c = elim (abort_or_batch_done b) [
    | some e ↦ (b, some e)
    | none ↦ (record b { turn = let_in c }, none)
  ]

  abbrev pub after_yield : BatchState S → S × Option GoError → BatchState S
  after_yield b (s, none) = record b { consumer = s; turn = free }
  after_yield b (s, some e) = record b { consumer = s; turn = answered (wrap_yield_error e) }

  -- The consumer's call with the chunk that was let in.
  abbrev pub deliver : BatchState S → Chunk → BatchState S
  deliver b c = after_yield b (yield b.consumer c)

  -- The record of the consumer's error.
  unfoldable pub record_answer : GoError → BatchState S → BatchState S
  unfolding record_stream_abort
  record_answer e b = record_stream_abort e (record b { turn = free })

  -- The first suspension counts.
  unfoldable pub suspend : GoError → BatchState S → BatchState S
  suspend e b = elim b.suspend_err [ some f ↦ b | none ↦ record b { suspend_err = some e } ]

  -- What the other workers and the caller's context do between two steps of a worker is `others`.
  module _ (others : BatchState S → BatchState S) where
    abbrev pub after_call : BatchState S → BatchState S × Option GoError
    after_call b = elim b.turn [
      | free ↦ (b, none)
      | let_in c ↦ (b, none)
      | answered e ↦ (record_answer e (others b), some e)
    ]

    abbrev pub after_enter : Chunk → BatchState S × Option GoError → BatchState S × Option GoError
    after_enter c (b, some e) = (b, some e)
    after_enter c (b, none) = after_call (deliver (others b) c)

    -- safeYield from its lock on
    unfoldable pub locked_yield : BatchState S → Chunk → BatchState S × Option GoError
    locked_yield b c = after_enter c (enter (others b) c)

    abbrev pub after_look : BatchState S → Chunk → Option GoError → BatchState S × Option GoError
    after_look b c (some e) = (b, some e)
    after_look b c none = locked_yield b c

    -- safeYield, by its steps; its first check takes no lock.
    unfoldable pub safe_yield : BatchState S → Chunk → BatchState S × Option GoError
    safe_yield b c = after_look (others b) c (abort_or_batch_done (others b))

    module _ (host : Host) where
      abbrev tagged : ToolCall → Chunk → Chunk
      tagged call c = record c { call_id = call.input.call_id; tool_name = call.tool_name }

      -- The summary of a call whose error went out as a chunk.
      abbrev pub reported : GoError → Chunk → Bool → ExecutionSummary → ExecutionSummary
      reported e c ready s =
          if ready
          then record s {
            error = none;
            error_chunks = s.error_chunks + 1;
            last_error_text = host.summary_text c (some e);
          }
          else s

      abbrev pub after_report :
          GoError
          → Chunk
          → Bool
          → ExecutionSummary
          → BatchState S × Option GoError
          → BatchState S × ExecutionSummary
      after_report e c ready s (b, none) = (b, reported e c ready s)
      after_report e c ready s (b, some f) =
          ((if is f stream_aborted then record_stream_abort f b else b), s)

      abbrev pub report :
          ToolCall
          → GoError
          → Bool
          → ExecutionSummary
          → BatchState S
          → Result Chunk
          → BatchState S × ExecutionSummary
      report call e ready s b (err f) =
          ((safe_yield b (new_error_chunk_from_err host.codec f)).0, s)
      report call e ready s b (ok c) =
          after_report e (tagged call c) ready s (safe_yield b (tagged call c))

      -- handleBatchToolError
      unfoldable pub handle_batch_tool_error :
          ToolCall
          → Option GoError
          → ExecutionSummary
          → Bool
          → BatchState S
          → BatchState S × ExecutionSummary
      unfolding suspend
      handle_batch_tool_error call none s ready b = (b, s)
      handle_batch_tool_error call (some e) s ready b =
          if is_control_error e
          then (suspend e b, s)
          else if is e stream_aborted
          then (record_stream_abort e b, s)
          else if is_context_interrupt e
          then (b, s)
          else report call e ready s b
              (prepare_chunk host.codec (new_error_chunk_from_err host.codec e))

      -- The consumer that a worker gives to its call.
      abbrev pub tool_yield : ToolCall → BatchState S → Chunk → BatchState S × Option GoError
      tool_yield call b c = safe_yield b (record c {
        call_id = if str_eq c.call_id "" then call.input.call_id else c.call_id;
        tool_name = if str_eq c.tool_name "" then call.tool_name else c.tool_name;
      })

      -- What a worker leaves behind; a panic that is not recovered ends the program.
      pub record Worked : Type 0 where
        pub batch : BatchState S
        pub runtime : RuntimeState
        pub trace : List Hook
        pub panicked : Option String

      -- The after-hook of a worker, where the call was started.
      abbrev after_hook : Registry → Bool → ExecutionSummary → List Hook
      after_hook r ready s = if ready && r.opts.on_after then after s ∷ [] else []

      abbrev pub worked : Registry → ToolCall → Executed (BatchState S) → Exit → Worked
      worked r call e (returned x) =
          let (b, s) =
            handle_batch_tool_error call x e.progress.summary e.summary_ready e.progress.consumer in
          record {
            batch = b;
            runtime = e.runtime;
            trace = e.progress.trace ++ after_hook r e.summary_ready s;
            panicked = none;
          }
      worked r call e (panicked p) = record {
        batch = e.progress.consumer;
        runtime = e.runtime;
        trace = e.progress.trace;
        panicked = some p;
      }

      -- A worker: its call without the after-hook, then its error.
      unfoldable pub run_batch_stream_worker :
          Registry → (ℕ → Option GoError) → ToolCall → RuntimeState → BatchState S → Worked
      unfolding handle_batch_tool_error
      run_batch_stream_worker r interrupt call runtime b =
          let e = execute_with_summary host r interrupt (tool_yield call) false call runtime b in
          worked r call e e.exit

  -- What ExecuteBatchStream returns when all workers are done.
  unfoldable pub batch_result : BatchState S → Option GoError
  batch_result b = elim b.ctx_err [
    | some e ↦ some e
    | none ↦ elim b.stream_abort_err [ some e ↦ some e | none ↦ b.suspend_err ]
  ]
