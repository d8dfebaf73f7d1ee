-- ===== src/Sandbox.antt =====
-- internal/sandboxfs (capped_buffer.go, run_result.go, finalize.go): the output of a sandboxed process, and
-- the result of its run.
pub mod Workspace
pub mod Inside
pub mod Files
pub mod Output
mod Tests
use toolsy.Bytes.{Bytes}
use toolsy.Prelude.{
  ℕ, ◌+◌, String, Bool, true, false, ◌&&◌, Option, none, some, List, [], ◌∷◌, ◌++◌, length, ltb,
  ◌==◌, if◌then◌else◌,
}
use toolsy.Errors.{
  GoError, lit, amount, wrap, sentinel, is, read_limit_exceeded, deadline_exceeded, sandbox_failure,
  sandbox_timeout, wrap_both, Result, ok, err,
}

-- CappedBuffer; a `max` of 0, or below, is no cap.
pub record CappedBuffer : Type 0 where
  pub max : ℕ
  pub name : String
  pub buf : Bytes
  pub overflow : Option GoError

abbrev pub new_capped_buffer : String → ℕ → CappedBuffer
new_capped_buffer name max = record { max = max; name = name; buf = []; overflow = none }

-- textprocessor.NewReadLimitError
abbrev pub read_limit_error : String → ℕ → GoError
read_limit_error name max =
    wrap (lit name ∷ lit ": " ∷ amount max ∷ []) (sentinel read_limit_exceeded)

-- Write: the buffer, the count of the bytes that were written and the error.
unfoldable pub write : CappedBuffer → Bytes → CappedBuffer × ℕ × Option GoError
write b p =
    if ltb 0 b.max && ltb b.max (length b.buf + length p)
    then (
      record b { overflow = some (read_limit_error b.name b.max) },
      0,
      some (read_limit_error b.name b.max),
    )
    else (record b { buf = b.buf ++ p }, length p, none)

-- The writes of a process, which may go on after an error.
unfoldable pub write_all : CappedBuffer → List Bytes → CappedBuffer
unfolding write
write_all b [] = b
write_all b (p ∷ ps) = write_all (write b p).0 ps

-- The exit code and the duration are numbers that name them.
pub record RunResult : Type 0 where
  pub stdout : Bytes
  pub stderr : Bytes
  pub exit_code : ℕ
  pub duration : ℕ

-- The error of a run, if it is a read limit (textprocessor.IsReadLimitExceeded).
abbrev pub read_limit_of : Option GoError → Option GoError
read_limit_of none = none
read_limit_of (some e) = if is e read_limit_exceeded then some e else none

abbrev pub sandbox_error : GoError → GoError
sandbox_error e = wrap_both (wrap (lit "execute" ∷ []) (sentinel sandbox_failure)) e

abbrev pub exited : Bool → Option GoError → RunResult → Result RunResult
exited true e r = ok r
exited false (some e) r = err e
exited false none r = ok r

-- FinishRun
unfoldable pub finish_run :
    Option GoError → RunResult → Bool → Option GoError → Option GoError → Result RunResult
finish_run run_err r exit_ok out_overflow err_overflow = elim (read_limit_of run_err) [
  | some e ↦ err (sandbox_error e)
  | none ↦ elim out_overflow [
    | some e ↦ err (sandbox_error e)
    | none ↦ elim err_overflow [ some e ↦ err (sandbox_error e) | none ↦ exited exit_ok run_err r ]
  ]
]

-- strings.TrimSuffix(s, "\n")
unfoldable pub trim_newline : Bytes → Bytes
trim_newline [] = []
trim_newline (x ∷ []) = if x == 10 then [] else x ∷ []
trim_newline (x ∷ (y ∷ ys)) = x ∷ trim_newline (y ∷ ys)

-- The text and the overflow of a buffer that may be nil.
abbrev pub text_of : Option CappedBuffer → Bytes
text_of none = []
text_of (some b) = b.buf

abbrev pub overflow_of : Option CappedBuffer → Option GoError
overflow_of none = none
overflow_of (some b) = b.overflow

-- FinalizeOrInterrupt
unfoldable pub finalize_or_interrupt :
    Option GoError
    → Option GoError
    → Option CappedBuffer
    → Option CappedBuffer
    → ℕ
    → ℕ
    → Bool
    → Bool
    → Result RunResult
unfolding finish_run trim_newline
finalize_or_interrupt ctx_err run_err stdout stderr exit_code duration exit_ok trim = elim ctx_err [
  | some e ↦ err (if is e deadline_exceeded then sentinel sandbox_timeout else e)
  | none ↦
      finish_run run_err
        (record {
          stdout = if trim then trim_newline (text_of stdout) else text_of stdout;
          stderr = text_of stderr;
          exit_code = exit_code;
          duration = duration;
        })
        exit_ok (overflow_of stdout) (overflow_of stderr)
]
