-- ===== src/Chunk/Tests.antt =====
-- The theorems about chunks at three of them.
use toolsy.Prelude.{◌≡◌, refl, some}
use toolsy.Errors.{
  Sentinel, sentinel, to_error, new_tool_not_found_error, is, as_tool_error, is_context_interrupt,
}
use toolsy.Chunk.{Chunk}
use toolsy.Chunk.Wire.{
  new_error_chunk_from_err, reported_tool_error, sentinel_for_error_code,
  tool_error_from_execution_err, map_read_limit_for_wire, tool_error_from_existing,
  unwrap_interrupt_err,
}
use toolsy.Chunk.Prepare.{
  prepare_chunk, execution_error_from_chunk, validate_chunk, validate_data, with_envelope,
  tool_envelope,
}
use toolsy.Chunk.Contract.{IsDeliverable, prepare_chunk-IsDeliverable}
use toolsy.Chunk.RoundTrip.{carried, execution_error-new_error_chunk}
use toolsy.Samples.{codec, result_chunk}

-- The result chunk with its default envelope.
abbrev prepared : Chunk
prepared = record result_chunk { envelope = some (tool_envelope codec result_chunk) }

prepare_chunk-IsDeliverable_example : IsDeliverable codec prepared
unfolding prepare_chunk validate_chunk validate_data with_envelope
prepare_chunk-IsDeliverable_example =
    prepare_chunk-IsDeliverable codec result_chunk {k' = prepared} refl

execution_error-new_error_chunk_example :
    let e = to_error new_tool_not_found_error in
    let back = execution_error_from_chunk codec (new_error_chunk_from_err codec e) in
    (back.info ≡ carried codec e (reported_tool_error codec e).info)
    × (codec.valid_text (reported_tool_error codec e).reason ≡ (reported_tool_error codec e).reason
        → codec.valid_text (reported_tool_error codec e).safe_message
          ≡ (reported_tool_error codec e).safe_message
        → back.info ≡ (reported_tool_error codec e).info)
    × ((s : Sentinel)
        → sentinel_for_error_code (reported_tool_error codec e).code ≡ some s
        → back.err ≡ some (sentinel s))
unfolding reported_tool_error tool_error_from_execution_err map_read_limit_for_wire
    unwrap_interrupt_err tool_error_from_existing is as_tool_error is_context_interrupt
execution_error-new_error_chunk_example =
    execution_error-new_error_chunk codec (to_error new_tool_not_found_error) (λ h. absurd (cc))
