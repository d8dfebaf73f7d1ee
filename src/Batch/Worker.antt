-- ===== src/Batch/Worker.antt =====
-- registry.go (runBatchStreamWorker): a worker takes the batch's steps and no other, among those of the
-- other workers.
use toolsy.Prelude.{
  ℕ, inl, inr, ◌≡◌, refl, ◌∙◌, Bool, false, Option, none, some, Bool-cases, Option-cases,
}
use toolsy.Errors.{
  GoError, is, stream_aborted, is_control_error, is_context_interrupt, Result, ok, err,
}
use toolsy.Chunk.{Chunk}
use toolsy.Chunk.Prepare.{prepare_chunk}
use toolsy.Chunk.Wire.{new_error_chunk_from_err}
use toolsy.Tool.Run.{Exit, returned, panicked}
use toolsy.Registry.{Registry, RuntimeState}
use toolsy.Registry.Execute.{Host, ToolCall, ExecutionSummary, Executed, execute_with_summary}
use toolsy.Registry.Keeps.{execute_with_summary-keeps}
use toolsy.Batch.{
  free, let_in, BatchState, abort_or_batch_done, record_stream_abort, enter, after_yield,
  record_answer, suspend, after_call, locked_yield, after_look, safe_yield, handle_batch_tool_error,
  after_report, report, tool_yield, worked, run_batch_stream_worker,
}
use toolsy.Batch.Steps.{
  Step, enters, delivers, records, aborts, suspends, Reach, here, then_step, Reach-trans,
}

module _ {S : Type 0} (yield : S → Chunk → S × Option GoError)
    (others : BatchState S → BatchState S)
    (rely : (b : BatchState S) → Reach yield b (others b) × ((others b).turn ≡ b.turn)) where
  -- A state that the batch reaches from another one, with the gate free.
  abbrev pub IsFree : BatchState S → BatchState S → Type 0
  IsFree a b = Reach yield a b × (b.turn ≡ free)

  record-turn : (e : GoError) (b : BatchState S) → (record_answer yield e b).turn ≡ free
  unfolding record_answer record_stream_abort
  record-turn e b = elim (Option-cases b.stream_abort_err) [
    | inl first ↦ rw (first) refl
    | inr (f, later) ↦ rw (later) refl
  ]

  abort-turn : (e : GoError) (b : BatchState S) → (record_stream_abort yield e b).turn ≡ b.turn
  unfolding record_stream_abort
  abort-turn e b = elim (Option-cases b.stream_abort_err) [
    | inl first ↦ rw (first) refl
    | inr (f, later) ↦ rw (later) refl
  ]

  suspend-turn : (e : GoError) (b : BatchState S) → (suspend yield e b).turn ≡ b.turn
  unfolding suspend
  suspend-turn e b = elim (Option-cases b.suspend_err) [
    | inl first ↦ rw (first) refl
    | inr (f, later) ↦ rw (later) refl
  ]

  after_call-IsFree :
      (a b : BatchState S) (x : S × Option GoError)
      → Reach yield a (after_yield yield b x)
      → IsFree a (after_call yield others (after_yield yield b x)).0
  after_call-IsFree a b (s, none) h = (h, refl)
  after_call-IsFree a b (s, some e) h =
      let (later, same) = rely (after_yield yield b (s, some e)) in
      (then_step (Reach-trans yield h later) (records _ same), record-turn _ _)

  locked_yield-IsFree :
      (a b : BatchState S) (c : Chunk) → IsFree a b → IsFree a (locked_yield yield others b c).0
  unfolding locked_yield enter
  locked_yield-IsFree a b c (h, held) =
      let (later, same) = rely b in
      let now = Reach-trans yield h later in
      let in_turn = same ∙ held in
      elim (Option-cases (abort_or_batch_done yield (others b))) [
        | inr (e, over) ↦ rw (locked_yield, enter, over) (now, in_turn)
        | inl goes_on ↦
            let entered : BatchState S = record (others b) { turn = let_in c } in
            let one : Step yield (others b) (enter yield (others b) c).0 = enters c in_turn in
            let step : Reach yield a entered = then_step now (rw (enter, goes_on) at one) in
            let (between, kept) = rely entered in
            rw (locked_yield, enter, goes_on)
              (after_call-IsFree a (others entered) (yield (others entered).consumer c)
                (then_step (Reach-trans yield step between) (delivers c kept)))
      ]

  after_look-IsFree :
      (a b : BatchState S) (c : Chunk) (x : Option GoError)
      → IsFree a b
      → IsFree a (after_look yield others b c x).0
  after_look-IsFree a b c (some e) h = h
  after_look-IsFree a b c none h = locked_yield-IsFree a b c h

  safe_yield-IsFree :
      (a b : BatchState S) (c : Chunk) → IsFree a b → IsFree a (safe_yield yield others b c).0
  unfolding safe_yield
  safe_yield-IsFree a b c (h, held) =
      let (later, same) = rely b in
      after_look-IsFree a (others b) c (abort_or_batch_done yield (others b))
        (Reach-trans yield h later, same ∙ held)

  module _ (host : Host) where
    after_report-IsFree :
        (a : BatchState S) (e : GoError) (c : Chunk) (ready : Bool) (s : ExecutionSummary)
        (x : BatchState S × Option GoError)
        → IsFree a x.0
        → IsFree a (after_report yield others host e c ready s x).0
    after_report-IsFree a e c ready s (b, none) h = h
    after_report-IsFree a e c ready s (b, some f) (h, held) =
        elim (Bool-cases (is f stream_aborted)) [
          | inl marked ↦ rw marked (then_step h (aborts f marked), abort-turn f b ∙ held)
          | inr other ↦ rw other (h, held)
        ]

    report-IsFree :
        (a : BatchState S) (call : ToolCall) (e : GoError) (ready : Bool) (s : ExecutionSummary)
        (b : BatchState S) (c : Result Chunk)
        → IsFree a b
        → IsFree a (report yield others host call e ready s b c).0
    report-IsFree a call e ready s b (err f) h =
        safe_yield-IsFree a b (new_error_chunk_from_err host.codec f) h
    report-IsFree a call e ready s b (ok c) h =
        after_report-IsFree a e _ ready s _ (safe_yield-IsFree a b _ h)

    handle-IsFree :
        (a : BatchState S) (call : ToolCall) (x : Option GoError) (s : ExecutionSummary)
        (ready : Bool) (b : BatchState S)
        → IsFree a b
        → IsFree a (handle_batch_tool_error yield others host call x s ready b).0
    unfolding handle_batch_tool_error
    handle-IsFree a call none s ready b h = h
    handle-IsFree a call (some e) s ready b h = elim (Bool-cases (is_control_error e)) [
      | inl controls ↦
          rw (controls, handle_batch_tool_error)
            (then_step h.0 (suspends e controls), suspend-turn e b ∙ h.1)
      | inr other ↦ elim (Bool-cases (is e stream_aborted)) [
        | inl marked ↦
            rw (other, marked, handle_batch_tool_error)
              (then_step h.0 (aborts e marked), abort-turn e b ∙ h.1)
        | inr unmarked ↦ elim (Bool-cases (is_context_interrupt e)) [
          | inl interrupts ↦ rw (other, unmarked, interrupts, handle_batch_tool_error) h
          | inr fails ↦
              rw (other, unmarked, fails, handle_batch_tool_error)
                (report-IsFree a call e ready s b
                  (prepare_chunk host.codec (new_error_chunk_from_err host.codec e)) h)
        ]
      ]
    ]

    worked-IsFree :
        (r : Registry) (call : ToolCall) (a : BatchState S) (e : Executed (BatchState S)) (x : Exit)
        → IsFree a e.progress.consumer
        → IsFree a (worked yield others host r call e x).batch
    worked-IsFree r call a e (returned x) h =
        handle-IsFree a call x e.progress.summary e.summary_ready e.progress.consumer h
    worked-IsFree r call a e (panicked p) h = h

    -- A worker that finds the gate free takes the batch by the batch's steps alone and leaves the gate
    -- free, whatever its tool does, if between two of its steps the others do so as well and leave the
    -- gate to whom it belongs.
    pub run_batch_stream_worker-IsFree :
        (r : Registry) (interrupt : ℕ → Option GoError) (call : ToolCall) (runtime : RuntimeState)
        (b : BatchState S)
        → b.turn ≡ free
        → IsFree b (run_batch_stream_worker yield others host r interrupt call runtime b).batch
    unfolding run_batch_stream_worker
    run_batch_stream_worker-IsFree r interrupt call runtime b start =
        let e =
          execute_with_summary host r interrupt (tool_yield yield others host call) false call
            runtime b in
        worked-IsFree r call b e e.exit (
          execute_with_summary-keeps host r interrupt (tool_yield yield others host call) (IsFree b)
            (λ m c h. safe_yield-IsFree b m _ h) false call runtime b (here, start))
