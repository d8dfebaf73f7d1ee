-- ===== src/Async/Tests.antt =====
-- The theorems about async tools at the a tool, with room for three chunks.
use toolsy.Prelude.{◌≤◌, ◌≡◌, refl, false, none, [], ◌∷◌, length, All}
use toolsy.Errors.{ok}
use toolsy.Chunk.Prepare.{prepare_chunk}
use toolsy.Chunk.Contract.{IsDeliverable}
use toolsy.Tool.{Script, emit, done}
use toolsy.Tool.Run.{returned, run_script}
use toolsy.Async.{
  Accepting, collect_yield, execution_err, execution_err_from_collected, keep_on, nothing_collected,
  run_background,
}
use toolsy.Async.Collection.{offered_in, ArePrepared, run_background_complete}
use toolsy.Samples.{codec, progress_chunk, result_chunk}

-- A tool that hands out two chunks and returns nil.
abbrev clean_script : Script
clean_script = emit progress_chunk (λ a. emit result_chunk (λ b. done none))

run_background_complete_example :
    let done_with = run_background codec 3 clean_script in
    (length done_with.chunks ≤ 3)
    × All (IsDeliverable codec) done_with.chunks
    × (done_with.error ≡ none
        → ArePrepared codec (offered_in codec 3 clean_script nothing_collected) done_with.chunks
          × ((run_script (collect_yield codec 3) keep_on clean_script nothing_collected).1
              ≡ returned none)
          × All (λ c. c.is_error ≡ false) done_with.chunks)
run_background_complete_example = run_background_complete codec 3 clean_script

no_error_told : (run_background codec 3 clean_script).error ≡ none
unfolding run_background collect_yield prepare_chunk execution_err execution_err_from_collected
no_error_told = refl

abbrev accepting : Accepting
accepting = record {
  ctx_err = none;
  task_id = ok "t1";
  ctx_err_later = none;
  accepted_json = λ id. 1 ∷ [];
}
