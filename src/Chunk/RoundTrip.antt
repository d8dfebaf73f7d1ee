-- ===== src/Chunk/RoundTrip.antt =====
-- tool_error_wire.go, middleware_error_formatter.go, outcome.go: an error that goes out as a chunk
-- comes back as the same tool error, up to its cause.
use toolsy.Prelude.{◌≡◌, refl, ◌≢◌, false, some, arith, inr}
use toolsy.Errors.{
  GoError, Sentinel, sentinel, code_empty, ToolError, ToolInfo, as_tool_error, is_context_interrupt,
  read_limit_exceeded, is,
}
use toolsy.Chunk.{Codec}
use toolsy.Chunk.Wire.{
  new_error_chunk_from_err, reported_tool_error, unmarshal_tool_error_wire, restore,
  sentinel_for_error_code, tool_error_from_execution_err, unwrap_interrupt_err,
  tool_error_from_existing, map_read_limit_for_wire,
}
use toolsy.Chunk.Prepare.{execution_error_from_chunk}
use toolsy.Chunk.Contract.{normalize_error_chunk-normal}

module _ (c : Codec) (e : GoError) where
  -- What an error chunk can carry of a tool error.
  abbrev pub carried : ToolInfo → ToolInfo
  carried i = record i {
    reason = c.valid_text i.reason;
    safe_message = c.valid_text i.safe_message;
  }

  -- The tool error that the consumer reads from an error chunk has the code, the retry flag, the
  -- reason, the fixable arguments and the safe message of the one that was reported, if that has a
  -- code, with the reason and the safe message as JSON writes them; where these are valid UTF-8, which
  -- JSON writes as they are, it is all that was reported. For a code with a sentinel the cause is that
  -- sentinel.
  pub execution_error-new_error_chunk :
      (reported_tool_error c e).code ≢ code_empty
      → let back = execution_error_from_chunk c (new_error_chunk_from_err c e) in
        (back.info ≡ carried (reported_tool_error c e).info)
        × (c.valid_text (reported_tool_error c e).reason ≡ (reported_tool_error c e).reason
            → c.valid_text (reported_tool_error c e).safe_message
              ≡ (reported_tool_error c e).safe_message
            → back.info ≡ (reported_tool_error c e).info)
        × ((s : Sentinel)
            → sentinel_for_error_code (reported_tool_error c e).code ≡ some s
            → back.err ≡ some (sentinel s))
  unfolding execution_error_from_chunk unmarshal_tool_error_wire
  execution_error-new_error_chunk h =
      rw
        (normalize_error_chunk-normal c (new_error_chunk_from_err c e)
          (inr (unfold new_error_chunk_from_err in refl)))
        (unfold new_error_chunk_from_err restore in
          (ground arith, (λ r m. ground (arith, r, m)), λ s k. ground arith))

-- A tool error that is neither an interrupt nor a read limit is reported as it is.
pub reported_tool_error-tool :
    (c : Codec) (e : GoError) {te : ToolError}
    → as_tool_error e ≡ some te
    → is_context_interrupt e ≡ false
    → unwrap_interrupt_err e ≡ e
    → is e read_limit_exceeded ≡ false
    → reported_tool_error c e ≡ te
unfolding reported_tool_error tool_error_from_execution_err tool_error_from_existing
    map_read_limit_for_wire is_context_interrupt
reported_tool_error-tool c e h i u r = ground arith
