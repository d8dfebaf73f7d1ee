-- ===== src/Registry/Delivery.antt =====
-- registry.go (executeWithSummary): what the consumer of one call receives, and what the summary says of
-- it.
use toolsy.Prelude.{
  ℕ, suc, ◌≡◌, refl, Bool, true, false, Option, none, some, List, [], ◌∷◌, if◌then◌else◌, str_eq,
  not,
}
use toolsy.Errors.{GoError, to_error, new_registry_state_error}
use toolsy.Chunk.{Chunk, mime_tool_error_json}
use toolsy.Chunk.Prepare.{malformed_error}
use toolsy.Chunk.Wire.{new_error_chunk_from_err}
use toolsy.Chunk.Contract.{prepare_chunk-malformed}
use toolsy.Tool.{Tool}
use toolsy.Tool.Run.{Exit, returned, panicked, run_script-keeps}
use toolsy.Registry.{Registry, RuntimeState, lookup_tool, try_start_execution}
use toolsy.Registry.Execute.{
  Host, ToolCall, Progress, conclude, run_found, run_gated, execute_with_summary, with_call_meta,
  wrap_yield_with_call_meta, bound_call, gated, run_started, run_looked_up, refused, empty_summary,
}
use toolsy.Registry.Offers.{
  IsAccounted, IsOffered, recorded, recording, Kept, consumer-account, deliver-Kept,
  deliver-IsOffered,
}

module _ (host : Host) (r : Registry) (interrupt : ℕ → Option GoError)
    (answer : List Chunk → Chunk → Option GoError) (hook : Bool) (call : ToolCall)
    (runtime : RuntimeState) where
  abbrev Keeps : Progress (List Chunk) → Type 0
  Keeps p = Kept host r interrupt answer call p

  gated-Keeps :
      (p : Progress (List Chunk)) (g : Option GoError) (run : Progress (List Chunk) × Exit)
      → Keeps p
      → Keeps run.0
      → Keeps (gated p g run).0
  gated-Keeps p (some e) run h k = h
  gated-Keeps p none (q, returned e) h k = k
  gated-Keeps p none (q, panicked x) h k = k

  run_gated-Keeps :
      (t : Tool) (p : Progress (List Chunk))
      → Keeps p
      → Keeps
          (run_gated host r interrupt
            (recording answer)
            (bound_call host r interrupt (recording answer) call)
            t
            p).0
  unfolding run_gated
  run_gated-Keeps t p h = gated-Keeps p _ _ h (
      run_script-keeps _ _ Keeps
        (deliver-Kept host r interrupt answer (bound_call host r interrupt (recording answer) call))
        (λ q b k. k) _ p h)

  run_found-Keeps :
      (started : RuntimeState) (t : Tool)
      → Keeps (run_found host r interrupt (recording answer) hook call started t []).progress
  unfolding run_found conclude
  run_found-Keeps started t =
      let k =
        run_gated-Keeps t _ (record { results = refl; errors = refl; bytes = refl; tagged = tt }) in
      record { results = k.results; errors = k.errors; bytes = k.bytes; tagged = k.tagged }

  call-IsAccounted :
      let e = execute_with_summary host r interrupt (recording answer) hook call runtime [] in
      IsAccounted host.codec call.input.call_id call.tool_name e.progress.consumer
        e.progress.summary
  unfolding execute_with_summary
  call-IsAccounted = pick r.has_state (try_start_execution runtime)
    where
      nothing : IsAccounted host.codec call.input.call_id call.tool_name [] empty_summary
      nothing = record { results = refl; errors = refl; bytes = refl; tagged = tt }

      found :
          (started : RuntimeState) (o : Option Tool)
          → Keeps
              (run_looked_up host r interrupt (recording answer) hook call started [] o).progress
      found started none = nothing
      found started (some t) = run_found-Keeps started t

      pick :
          (b : Bool) (o : Option RuntimeState)
          → Keeps
              (if not b
                then refused host r interrupt
                    (recording answer)
                    []
                    runtime
                    (to_error new_registry_state_error)
                else run_started host r interrupt
                    (recording answer)
                    hook
                    call
                    runtime
                    []
                    o).progress
      pick false o = nothing
      pick true none = nothing
      pick true (some started) = found started (lookup_tool r.tools call.tool_name)

  -- Whatever the tool, the consumer and the context do, the summary of a call counts the results, the
  -- errors and the bytes of exactly the chunks that the consumer took, each of which passed the wire
  -- contract and names the call unless it is an error or the call has no name. And whatever chunk the
  -- tool hands to the yield of the call, either the consumer takes nothing and the tool gets an error, or
  -- the consumer takes one chunk for it and the tool gets none; and this chunk, if it is no error, bears
  -- the id and the tool's name of the tool's chunk, or the call's where they are blank.
  pub execute_with_summary-IsAccounted :
      let e = execute_with_summary host r interrupt (recording answer) hook call runtime [] in
      let bound = bound_call host r interrupt (recording answer) call in
      IsAccounted host.codec call.input.call_id call.tool_name e.progress.consumer
        e.progress.summary
      × ((p : Progress (List Chunk)) (k : Chunk)
          → IsOffered call.input.call_id call.tool_name p.consumer k
              (wrap_yield_with_call_meta host r interrupt (recording answer) bound p k))
  execute_with_summary-IsAccounted = (
    call-IsAccounted,
    λ p k.
        deliver-IsOffered host r interrupt answer
          (bound_call host r interrupt (recording answer) call) p k,
  )

-- An error chunk without a tool error payload is offered to the consumer in another's place, and that
-- one has neither the call's id nor the tool's name, though the chunk was tagged with both before.
pub malformed_untagged :
    (host : Host) (r : Registry) (interrupt : ℕ → Option GoError)
    (answer : List Chunk → Chunk → Option GoError) (call : ToolCall) (p : Progress (List Chunk))
    (k : Chunk)
    → interrupt p.moment ≡ none
    → k.is_error ≡ true
    → str_eq k.mime_type mime_tool_error_json ≡ false
    → answer p.consumer (
        new_error_chunk_from_err host.codec
          (malformed_error host.codec (with_call_meta host r interrupt (recording answer) call k)))
      ≡ none
    → let took =
        (wrap_yield_with_call_meta host r interrupt (recording answer) call p k).0.consumer in
      (rest : List Chunk) × (c : Chunk) × (took ≡ c ∷ rest) × (c.call_id ≡ "") × (c.tool_name ≡ "")
unfolding wrap_yield_with_call_meta
malformed_untagged host r interrupt answer call p k on_time is mime takes =
    let meta_k = with_call_meta host r interrupt (recording answer) call k in
    let new = new_error_chunk_from_err host.codec (malformed_error host.codec meta_k) in
    let q : Progress (List Chunk) = record p { moment = suc p.moment } in
    (
      p.consumer,
      new,
      rw (on_time, wrap_yield_with_call_meta)
          (rw (prepare_chunk-malformed host.codec meta_k is mime) (
            rw (takes, recorded)
              (consumer-account host r interrupt answer call new
                (record q { consumer = new ∷ p.consumer })))),
      unfold new_error_chunk_from_err in refl,
      unfold new_error_chunk_from_err in refl,
    )
