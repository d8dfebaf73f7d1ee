-- ===== src/Errors/Chains.antt =====
-- errors.go: what `errors.Is` and `errors.As` see of the errors that the package builds.
use toolsy.Prelude.{◌≡◌, Bool, true, false, arith}
use toolsy.Errors.{
  GoError, Sentinel, ErrorCode, is, is_context_interrupt, client_correctable_code,
  orchestrator_system_code, new_timeout_error_from, to_error,
}

-- A code that the model can correct is never one that stops the orchestrator.
pub client_correctable_code-not_system :
    (c : ErrorCode) → client_correctable_code c ≡ true → orchestrator_system_code c ≡ false
unfolding client_correctable_code orchestrator_system_code
client_correctable_code-not_system c h = ground arith

-- A timeout error keeps its cause in the chain, and is an interrupt whatever the cause.
pub new_timeout_error_from-chain :
    (e : GoError) (r : Bool) (s : Sentinel)
    → is e s ≡ true
    → (is (to_error (new_timeout_error_from e r)) s ≡ true)
      × (is_context_interrupt (to_error (new_timeout_error_from e r)) ≡ true)
unfolding is is_context_interrupt
new_timeout_error_from-chain e r s h = ground arith
