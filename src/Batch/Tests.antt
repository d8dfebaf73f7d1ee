-- ===== src/Batch/Tests.antt =====
-- The theorem about batches at one whose consumer counts.
use toolsy.Prelude.{ℕ, refl, none, some}
use toolsy.Errors.{sentinel, is, stream_aborted}
use toolsy.Batch.{free, let_in, BatchState, enter, abort_or_batch_done, record_stream_abort}
use toolsy.Batch.Steps.{Reach, here, then_step, enters, delivers, aborts, IsLater, Reach-IsLater}
use toolsy.Samples.{counting, result_chunk}

abbrev new_batch : BatchState ℕ
new_batch = record {
  ctx_err = none;
  stream_abort_err = none;
  suspend_err = none;
  turn = free;
  consumer = 0;
}

abbrev aborted : BatchState ℕ
aborted = record new_batch {
  stream_abort_err = some (sentinel stream_aborted);
  turn = let_in result_chunk;
}

-- A chunk is let in, another worker aborts the batch, and the chunk is delivered.
abbrev late_chunk : BatchState ℕ
late_chunk = record aborted { turn = free; consumer = 1 }

to_aborted : Reach counting new_batch aborted
unfolding enter abort_or_batch_done record_stream_abort is
to_aborted =
    then_step (then_step here (enters result_chunk refl)) (aborts (sentinel stream_aborted) refl)

to_late_chunk : Reach counting aborted late_chunk
to_late_chunk = then_step here (delivers result_chunk refl)

Reach-IsLater_example : IsLater counting aborted late_chunk
Reach-IsLater_example = Reach-IsLater counting to_late_chunk
