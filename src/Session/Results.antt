-- ===== src/Session/Results.antt =====
-- outcome.go: what the outcome of RunCall says of the chunks, of the error and of the status.
use mathlib.Core.List.{append-nil, append_assoc}
use toolsy.Prelude.{
  ℕ, ◌≡◌, refl, ◌≢◌, ◌↔◌, ◌⊎◌, inl, inr, Bool, true, false, Option, none, some, List, [], ◌∷◌, ◌++◌,
  arith, if◌then◌else◌, Bool-cases,
}
use toolsy.Errors.{GoError, ToolError, is_control_error}
use toolsy.Chunk.{
  Codec, Chunk, EventType, progress, result, control, no_event, other_event, Payload, raw,
}
use toolsy.Chunk.Prepare.{execution_error_from_chunk}
use toolsy.Tool.Run.{Exit, returned, panicked}
use toolsy.Registry.{Registry, RuntimeState}
use toolsy.Registry.Execute.{Host, ToolCall}
use toolsy.Registry.Keeps.{execute_with_summary-keeps}
use toolsy.Session.{Session, execute}
use toolsy.Session.Policy.{execute-admits}
use toolsy.Session.Outcome.{
  undecided, noop_success, business_error, infrastructure_error, ToolOutcome, Account,
  account_run_call_result, account_run_call_chunk, account_event, accounting, run_call_infra_error,
  tool_error_from_run_call, finalize_run_call_outcome, conclude_run_call, run_call_returned,
  run_call_result, run_call, fails_in_infra,
}

-- The chunks of a call, in their order, put to the account.
abbrev pub account_all : Codec → Account → List Chunk → Account
account_all codec a [] = a
account_all codec a (c ∷ cs) = account_all codec (account_run_call_chunk codec a c) cs

abbrev is_result : EventType → Bool
is_result result = true
is_result _ = false

abbrev is_progress : EventType → Bool
is_progress progress = true
is_progress _ = false

-- What the chunks say by themselves: the last error, the last result and the progress before the
-- first error; the second argument is what counts if there is none.
abbrev pub last_error : Codec → Option ToolError → List Chunk → Option ToolError
last_error codec e [] = e
last_error codec e (c ∷ cs) =
    if is_result c.event
    then (if c.is_error
        then last_error codec (some (execution_error_from_chunk codec c)) cs
        else last_error codec e cs)
    else last_error codec e cs

abbrev pub last_result : Payload → List Chunk → Payload
last_result p [] = p
last_result p (c ∷ cs) =
    if is_result c.event
    then (if c.is_error then last_result (raw []) cs else last_result c.payload cs)
    else last_result p cs

abbrev pub progress_before_error : List Chunk → List Chunk
progress_before_error [] = []
progress_before_error (c ∷ cs) =
    let rest = progress_before_error cs in
    if is_result c.event
    then (if c.is_error then [] else rest)
    else if is_progress c.event
    then c ∷ rest
    else rest

-- An account in which an execution error is there exactly when an error chunk came.
pub record IsConsistent (a : Account) : Type 0 where
  pub failed :
      a.terminal ≡ true → (a.outcome.execution_error ≢ none) × (a.outcome.status ≡ business_error)
  pub normal :
      a.terminal ≡ false → (a.outcome.execution_error ≡ none) × (a.outcome.status ≡ undecided)

module _ (codec : Codec) where
  event-IsConsistent :
      (a : Account) (c : Chunk) (e : EventType)
      → IsConsistent a
      → IsConsistent (account_event codec a c e)
  unfolding account_run_call_result
  event-IsConsistent a c progress h = record {
    failed = λ k. ground (arith, h.failed, k);
    normal = λ k. ground (arith, h.normal, k);
  }
  event-IsConsistent a c control h = record {
    failed = λ k. ground (arith, h.failed, k);
    normal = λ k. ground (arith, h.normal, k);
  }
  event-IsConsistent a c result h = record {
    failed = λ k. ground (arith, h.failed, k);
    normal = λ k. ground (arith, h.normal, k);
  }
  event-IsConsistent a c no_event h = h
  event-IsConsistent a c (other_event s) h = h

  result-of :
      (a : Account) (c : Chunk) (e : EventType)
      → let b = account_event codec a c e in
        (b.outcome.execution_error ≡ (
          if is_result e
          then (if c.is_error
              then some (execution_error_from_chunk codec c)
              else a.outcome.execution_error)
          else a.outcome.execution_error))
        × (b.outcome.result ≡ (
            if is_result e then (if c.is_error then raw [] else c.payload) else a.outcome.result))
        × (b.terminal
            ≡ (if is_result e then (if c.is_error then true else a.terminal) else a.terminal))
        × (b.outcome.progress ≡ (
            if is_progress e
            then (if a.terminal then a.outcome.progress else a.outcome.progress ++ c ∷ [])
            else a.outcome.progress))
  unfolding account_run_call_result
  result-of a c progress = ground arith
  result-of a c control = ground arith
  result-of a c result = ground arith
  result-of a c no_event = ground arith
  result-of a c (other_event s) = ground arith

  -- What an account holds after further chunks: the error of the last error chunk, the payload of the
  -- last result or nothing if that was an error, and, unless an error chunk had come before, the progress
  -- before the first error, added in order.
  pub account_all-result :
      (cs : List Chunk) (a : Account)
      → let b = account_all codec a cs in
        (b.outcome.execution_error ≡ last_error codec a.outcome.execution_error cs)
        × (b.outcome.result ≡ last_result a.outcome.result cs)
        × (b.outcome.progress ≡ (
            if a.terminal
            then a.outcome.progress
            else a.outcome.progress ++ progress_before_error cs))
  unfolding account_run_call_chunk
  account_all-result [] a = ground (arith, append-nil a.outcome.progress)
  account_all-result (c ∷ cs) a =
      let b = account_run_call_chunk codec a c in
      let later = account_all-result cs b in
      let now = result-of a c c.event in
      (
        ground (arith, later.0, now.0),
        ground (arith, later.1, now.1),
        ground (
          arith,
          later.2,
          now.2,
          now.3,
          append-nil a.outcome.progress,
          append_assoc a.outcome.progress (c ∷ []) (progress_before_error cs),
        ),
      )

-- What RunCall may return: an outcome that is settled without an error, or an error that is a control
-- signal or one of the infrastructure.
pub record IsSettled (o : ToolOutcome) : Type 0 where
  pub business : (o.status ≡ business_error) ↔ (o.execution_error ≢ none)
  pub ended : (o.status ≢ undecided) × (o.status ≢ infrastructure_error)
  pub noop : (o.status ≡ noop_success) ↔ ((o.execution_error ≡ none) × (o.noop ≡ true))
  pub not_infra : fails_in_infra o.execution_error ≡ false

pub record IsCoherent (o : ToolOutcome) (e : Option GoError) : Type 0 where
  pub settled : e ≡ none → IsSettled o
  pub failed :
      (f : GoError)
      → e ≡ some f
      → (is_control_error f ≡ true)
        ⊎ ((run_call_infra_error f ≡ true) × (o.status ≡ infrastructure_error))

-- An outcome before it is finalized.
abbrev IsOpen : ToolOutcome → Type 0
IsOpen o = ((o.execution_error ≢ none) × (o.status ≡ business_error)) ⊎ (o.status ≡ undecided)

finalize-IsCoherent :
    (o : ToolOutcome)
    → IsOpen o
    → IsCoherent (finalize_run_call_outcome o).0 (finalize_run_call_outcome o).1
unfolding finalize_run_call_outcome
finalize-IsCoherent o h = record {
  settled = λ k. record {
    business = ground (arith, h, k);
    ended = ground (arith, h, k);
    noop = ground (arith, h, k);
    not_infra = ground (arith, h, k);
  };
  failed = λ f k. ground (arith, h, k);
}

-- A consistent account is open, also after an error of Execute is put in.
IsConsistent-IsOpen :
    (a : Account) (te : Option ToolError)
    → IsConsistent a
    → (a.outcome.execution_error ≢ none → te ≢ none)
    → IsOpen (record a.outcome { execution_error = te })
IsConsistent-IsOpen a te h k = ground (arith, h.failed, h.normal, k, Bool-cases a.terminal)

-- An error that is not one of the infrastructure has a tool error.
tool_error-of-business :
    (e : GoError) → run_call_infra_error e ≡ false → tool_error_from_run_call e ≢ none
unfolding run_call_infra_error tool_error_from_run_call
tool_error-of-business e h = ground (arith, h)

conclude-IsCoherent :
    (a : Account) (e : Option GoError)
    → IsConsistent a
    → IsCoherent (conclude_run_call a.outcome e).0 (conclude_run_call a.outcome e).1
unfolding conclude_run_call
conclude-IsCoherent a none h =
    finalize-IsCoherent a.outcome (IsConsistent-IsOpen a a.outcome.execution_error h (λ k. k))
conclude-IsCoherent a (some e) h = elim (Bool-cases (is_control_error e)) [
  | inl controls ↦
      rw (controls, conclude_run_call)
        (record { settled = λ k. absurd (cc); failed = λ f k. inl (ground (arith, controls, k)) })
  | inr other ↦ elim (Bool-cases (run_call_infra_error e)) [
    | inl infra ↦
        rw (other, infra, conclude_run_call)
          (record { settled = λ k. absurd (cc); failed = λ f k. inr (ground (arith, infra, k)) })
    | inr business ↦
        rw (other, business, conclude_run_call)
          (finalize-IsCoherent _ (
            IsConsistent-IsOpen (record a { outcome = record a.outcome { envelope = _ } }) _ h
              (λ k. tool_error-of-business e business)))
  ]
]

module _ (host : Host) (interrupt : ℕ → Option GoError) where
  run-IsConsistent :
      (s : Session) (r : Registry) (call : ToolCall) (runtime : RuntimeState) (a : Account)
      → s.reg ≡ some r
      → IsConsistent a
      → IsConsistent (execute host interrupt (accounting host.codec) s call runtime a).consumer
  unfolding account_run_call_chunk
  run-IsConsistent s r call runtime a found h =
      elim (execute-admits host interrupt (accounting host.codec) s call runtime a found) [
        | inl (allowed, granted, bound, ran) ↦ rw ran (
            execute_with_summary-keeps host r interrupt (accounting host.codec) IsConsistent
              (λ b c k. event-IsConsistent host.codec b c c.event k) true call runtime a h)
        | inr (e, t, stops, kept) ↦ rw stops h
      ]

  returned-IsCoherent :
      (a : Account) (x : Exit) {o : ToolOutcome} {e : Option GoError}
      → IsConsistent a
      → run_call_result a.outcome x ≡ run_call_returned o e
      → IsCoherent o e
  returned-IsCoherent a (panicked p) h k = absurd (cc)
  returned-IsCoherent a (returned f) {o} {e} h k =
      let same_outcome : (conclude_run_call a.outcome f).0 ≡ o = cc in
      let same_error : (conclude_run_call a.outcome f).1 ≡ e = cc in
      rw (← same_outcome, ← same_error) (conclude-IsCoherent a f h)

  -- Whatever the tool does, RunCall over a registry either panics, or returns no error and a settled
  -- outcome, whose status is that of a business error exactly when it has an execution error, which is
  -- then none of the infrastructure, or returns an error that is a control signal or is one of the
  -- infrastructure, with the status that says so.
  pub run_call-IsCoherent :
      (s : Session) (r : Registry) (call : ToolCall) (runtime : RuntimeState) {o : ToolOutcome}
      {e : Option GoError}
      → s.reg ≡ some r
      → run_call host interrupt s call runtime ≡ run_call_returned o e
      → IsCoherent o e
  unfolding run_call
  run_call-IsCoherent s r call runtime found h =
      returned-IsCoherent _ _
        (run-IsConsistent s r call runtime _ found
          (record { failed = λ k. absurd (cc); normal = λ k. (refl, refl) }))
        (rw (found, run_call) at h)
