-- ===== src/Middleware/Tests.antt =====
-- The theorems about middlewares at the sample tool and at one that fails.
use toolsy.Prelude.{
  String, Option, List, All, ℕ, ◌≡◌, refl, true, false, none, some, [], ◌∷◌, if◌then◌else◌,
}
use toolsy.Errors.{
  GoError, lit, is_blank, sentinel, pause, to_error, new_budget_exceeded_error, is,
  is_control_error, ok,
}
use toolsy.Bytes.{Bytes}
use toolsy.Chunk.{Chunk, ToolErrorWire, raw}
use toolsy.Tool.{Script, done, panic, emit, BudgetTracker, ToolManifest}
use toolsy.Tool.Run.{returned, run_script}
use toolsy.Middleware.{format_errors, should_bypass_error_formatting}
use toolsy.Middleware.Ends.{format_errors-bypass}
use toolsy.Middleware.Truncate.{
  TruncationConfig, IsShort, recording, execute_truncated, execute_truncated-IsShort,
}
use toolsy.Middleware.Idempotent.{
  memory_get, memory_store, capture, run_captured, ended, execute_idempotent,
}
use toolsy.Middleware.Replay.{execute_idempotent-replay}
use toolsy.Samples.{codec, counting, progress_chunk, echo_manifest, echo_script}

abbrev pausing : Script
pausing = emit progress_chunk (λ a. done (some (sentinel pause)))

abbrev keep : ℕ → Script → ℕ
keep n b = n

format_errors-bypass_example : should_bypass_error_formatting (sentinel pause) ≡ true
unfolding format_errors run_script should_bypass_error_formatting is_control_error is
format_errors-bypass_example =
    format_errors-bypass codec counting keep pausing 0 (sentinel pause) refl

abbrev broken : Script
broken = emit progress_chunk (λ a. panic "index out of range")

abbrev no_budget : BudgetTracker
no_budget m i = ok (false, lit "spent" ∷ [])

abbrev refusal : GoError
refusal = to_error (
    new_budget_exceeded_error
      (if is_blank (lit "spent" ∷ []) then lit "budget exceeded" ∷ [] else lit "spent" ∷ []))

abbrev cfg : TruncationConfig
cfg = record { suffix = 46 ∷ []; include_json = true }

abbrev as_text : String → Option String
as_text mime = some "text/plain"

abbrev unencoded : ToolErrorWire → Bytes
unencoded w = []

abbrev accepting : List Chunk → Chunk → Option GoError
accepting seen c = none

execute_truncated-IsShort_example :
    All
      (IsShort as_text unencoded 2 cfg)
      (run_script
        (recording as_text unencoded 2 cfg accepting)
        (λ s b. s)
        (execute_truncated as_text unencoded 2 cfg echo_script)
        []).0
execute_truncated-IsShort_example =
    execute_truncated-IsShort as_text unencoded 2 cfg accepting echo_script refl

abbrev idempotent_manifest : ToolManifest
idempotent_manifest = record echo_manifest { idempotent = true }

execute_idempotent-replay_example :
    let items =
      (execute_idempotent counting keep memory_store idempotent_manifest "k" echo_script []
        0).items in
    execute_idempotent counting keep memory_store idempotent_manifest "k" broken items 5
    ≡ ended items 6 (returned none)
unfolding memory_get run_captured run_script capture
execute_idempotent-replay_example =
    execute_idempotent-replay counting keep idempotent_manifest "k" echo_script [] 0 3
      (raw (2 ∷ 3 ∷ [])) broken 5 refl refl refl
