-- ===== src/Sandbox/Output.antt =====
-- internal/sandboxfs: a run's result holds the whole output of the process, or there is none.
use mathlib.Core.List.{append_assoc, append-nil}
use toolsy.Prelude.{
  ℕ, ◌≤◌, ◌<◌, ◌≡◌, ◌≢◌, refl, inl, inr, ap, sym, ◌∙◌, String, Bool, false, Option, none, some,
  List, [], ◌∷◌, ◌++◌, arith, length, length-append, if◌then◌else◌, Option-cases,
}
use toolsy.Errors.{GoError, ok}
use toolsy.Bytes.{Bytes}
use toolsy.Sandbox.{
  CappedBuffer, new_capped_buffer, write, write_all, RunResult, finish_run, trim_newline,
  finalize_or_interrupt,
}

-- Everything that a process wrote.
abbrev pub concat : List Bytes → Bytes
concat [] = []
concat (p ∷ ps) = p ++ concat ps

abbrev IsWithin : CappedBuffer → Type 0
IsWithin b = 0 < b.max → length b.buf ≤ b.max

write-IsWithin : (b : CappedBuffer) (p : Bytes) → IsWithin b → IsWithin (write b p).0
unfolding write
write-IsWithin b p h k = ground (arith, h, k, length-append b.buf p)

write-whole :
    (b : CappedBuffer) (p : Bytes)
    → (b.overflow ≢ none → (write b p).0.overflow ≢ none)
      × ((write b p).0.overflow ≡ none → (write b p).0.buf ≡ b.buf ++ p)
unfolding write
write-whole b p = ((λ h. ground (arith, h)), λ h. ground (arith, h))

-- A buffer with a cap never holds more than it; an overflow is remembered, and without one the buffer
-- holds all that was written to it, in order.
pub write_all-whole :
    (ps : List Bytes) (b : CappedBuffer)
    → let end = write_all b ps in
      ((0 < b.max → length b.buf ≤ b.max) → 0 < end.max → length end.buf ≤ end.max)
      × (b.overflow ≢ none → end.overflow ≢ none)
      × (end.overflow ≡ none → end.buf ≡ b.buf ++ concat ps)
unfolding write_all
write_all-whole [] b = ((λ h. h), (λ h. h), λ h. sym (append-nil b.buf))
write_all-whole (p ∷ ps) b =
    let m = (write b p).0 in
    let (now_kept, now_whole) = write-whole b p in
    let (within, kept, whole) = write_all-whole ps m in
    (
      (λ h k. within (write-IsWithin b p h) k),
      (λ h. kept (now_kept h)),
      λ h. elim (Option-cases m.overflow) [
        | inr (e, over) ↦ absurd (kept (λ k. absurd (cc)) h)
        | inl fine ↦
            whole h ∙ ap (λ x. x ++ concat ps) (now_whole fine) ∙ append_assoc b.buf p (concat ps)
      ],
    )

write_all-max : (ps : List Bytes) (b : CappedBuffer) → (write_all b ps).max ≡ b.max
unfolding write_all write
write_all-max [] b = refl
write_all-max (p ∷ ps) b = write_all-max ps (write b p).0 ∙ ground arith

-- What was written to a new buffer that did not overflow is within its cap, if it has one.
whole-within :
    (name : String) (max : ℕ) (ps : List Bytes)
    → (write_all (new_capped_buffer name max) ps).overflow ≡ none
    → 0 < max
    → length (concat ps) ≤ max
whole-within name max ps h k =
    let (within, kept, whole) = write_all-whole ps (new_capped_buffer name max) in
    let same = write_all-max ps (new_capped_buffer name max) in
    let bound = within (λ z. omega arith) (omega (arith, same, k)) in
    omega (arith, bound, same, ap length (whole h))

-- A run has a result only if its context went on and both streams were taken whole: what the result
-- holds is all that the process wrote, up to one newline at the end of its output where that is trimmed.
-- An output over a cap, on either stream, never gives a result, whatever the process's exit was: what was
-- written to each is within its cap, if that is not 0.
pub finalize_or_interrupt-whole :
    (ctx_err run_err : Option GoError) (out_name err_name : String) (out_max err_max : ℕ)
    (out_writes err_writes : List Bytes) (exit_code duration : ℕ) (exit_ok trim : Bool)
    {r : RunResult}
    → finalize_or_interrupt ctx_err run_err
        (some (write_all (new_capped_buffer out_name out_max) out_writes))
        (some (write_all (new_capped_buffer err_name err_max) err_writes))
        exit_code
        duration
        exit_ok
        trim
      ≡ ok r
    → (ctx_err ≡ none)
      × (r.stdout ≡ (if trim then trim_newline (concat out_writes) else concat out_writes))
      × (r.stderr ≡ concat err_writes)
      × (r.exit_code ≡ exit_code)
      × (exit_ok ≡ false → run_err ≡ none)
      × (0 < out_max → length (concat out_writes) ≤ out_max)
      × (0 < err_max → length (concat err_writes) ≤ err_max)
unfolding finalize_or_interrupt finish_run
finalize_or_interrupt-whole ctx_err run_err out_name err_name out_max err_max out_writes err_writes
      exit_code duration exit_ok trim {r} h =
    let out = write_all-whole out_writes (new_capped_buffer out_name out_max) in
    let errs = write_all-whole err_writes (new_capped_buffer err_name err_max) in
    let out_full = (write_all (new_capped_buffer out_name out_max) out_writes).overflow in
    let err_full = (write_all (new_capped_buffer err_name err_max) err_writes).overflow in
    let out_fine : out_full ≡ none = ground (arith, h) in
    let err_fine : err_full ≡ none = ground (arith, h) in
    (
      ground (arith, h),
      ground (arith, h, out.2),
      ground (arith, h, errs.2),
      ground (arith, h),
      ground (arith, h),
      whole-within out_name out_max out_writes out_fine,
      whole-within err_name err_max err_writes err_fine,
    )
