-- ===== src/Chunk/Control.antt =====
-- control.go: control signals and the errors that stand for them.
use toolsy.Prelude.{Option, none, some, [], ◌∷◌}
use toolsy.Errors.{
  GoError, sentinel, pause, yield, halt, ui_action, message, lit, to_error, new_internal_error,
}
use toolsy.Chunk.{
  Chunk, empty_chunk, ControlSignal, pause_signal, yield_signal, halt_signal, ui_action_signal,
  control,
}

unfoldable pub control_error_from_signal : ControlSignal → GoError
control_error_from_signal (pause_signal r) = sentinel pause
control_error_from_signal (yield_signal r) = sentinel yield
control_error_from_signal (halt_signal r) = sentinel halt
control_error_from_signal (ui_action_signal a p) = sentinel ui_action

abbrev pub control_chunk : ControlSignal → Chunk
control_chunk s = record empty_chunk { event = control; control_signal = some s }

-- YieldControl: `yield` returns the consumer's error, or `none`.
unfoldable pub yield_control : (Chunk → Option GoError) → Option ControlSignal → Option GoError
unfolding control_error_from_signal
yield_control deliver none =
    some (to_error (new_internal_error (message (lit "toolsy: nil control signal" ∷ []))))
yield_control deliver (some s) = elim (deliver (control_chunk s)) [
  | some e ↦ some e
  | none ↦ some (control_error_from_signal s)
]
