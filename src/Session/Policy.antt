-- ===== src/Session/Policy.antt =====
-- session.go (enforceRunPolicy, Execute), runpolicy.go: which tools a session runs.
use toolsy.Prelude.{
  ℕ, ◌≡◌, refl, ◌≢◌, ◌↔◌, ◌⊎◌, inl, inr, String, true, Option, none, some, List, [], ◌∷◌, arith,
  str_eq, str_eq_iff, str_eq_refl, contains, is_empty, Bool-cases, Option-cases,
}
use toolsy.Errors.{GoError}
use toolsy.Chunk.{Chunk}
use toolsy.Registry.{Registry, RuntimeState}
use toolsy.Registry.Execute.{Host, ToolCall}
use toolsy.Session.{
  RunPolicy, enforce_run_policy, validate_run_policy, required_among, validate_run_policy_relations,
  Session, SessionTrack, execute, stopped, run_in, consume_step, env_error,
}

-- What the documentation of RunPolicy says of a tool's name.
pub record IsAllowed (p : RunPolicy) (name : String) : Type 0 where
  pub forced : p.forced_tool ≢ "" → name ≡ p.forced_tool
  pub allowed : p.allowed_tools ≢ [] → contains p.allowed_tools name ≡ true
  pub required :
      p.allowed_tools ≡ [] → p.required_tools ≢ [] → contains p.required_tools name ≡ true

is_empty_iff : {A : Type 0} (xs : List A) → (is_empty xs ≡ true) ↔ (xs ≡ [])
is_empty_iff [] = ground arith
is_empty_iff (x ∷ xs) = ground arith

-- The check lets a name through exactly when it is the forced tool, if there is one, is among the
-- allowed tools, if there are any, and is among the required tools, if only those are given.
pub enforce_run_policy-IsAllowed :
    (p : RunPolicy) (name : String) → (enforce_run_policy p name ≡ none) ↔ IsAllowed p name
unfolding enforce_run_policy
enforce_run_policy-IsAllowed p name =
    let f = str_eq_iff p.forced_tool "" in
    let n = str_eq_iff name p.forced_tool in
    let a = is_empty_iff p.allowed_tools in
    let r = is_empty_iff p.required_tools in
    (
      (λ h. record {
        forced = λ k. ground (arith, f, n, h, k);
        allowed = λ k. ground (arith, a, h, k);
        required = λ k l. ground (arith, a, r, h, k, l);
      }),
      λ h. ground (arith, f, n, a, r, h.forced, h.allowed, h.required),
    )

-- A tool that is forced is let through.
validate_run_policy-forced :
    (p : RunPolicy)
    → validate_run_policy p ≡ none
    → p.forced_tool ≢ ""
    → enforce_run_policy p p.forced_tool ≡ none
unfolding validate_run_policy validate_run_policy_relations enforce_run_policy
validate_run_policy-forced p h k =
    ground (arith, str_eq_iff p.forced_tool "", str_eq_refl p.forced_tool, h, k)

required_among-contains :
    (allowed required : List String) (name : String)
    → required_among allowed required ≡ none
    → contains required name ≡ true
    → contains allowed name ≡ true
unfolding required_among
required_among-contains allowed [] name h k = absurd (cc)
required_among-contains allowed (x ∷ xs) name h k = elim (Bool-cases (str_eq x name)) [
  | inl same ↦ ground (arith, str_eq_iff x name, h, same)
  | inr other ↦
      required_among-contains allowed xs name (ground (arith, h)) (ground (arith, k, other))
]

-- A required tool is let through where none is forced.
validate_run_policy-required :
    (p : RunPolicy) (name : String)
    → validate_run_policy p ≡ none
    → p.forced_tool ≡ ""
    → contains p.required_tools name ≡ true
    → enforce_run_policy p name ≡ none
unfolding validate_run_policy validate_run_policy_relations enforce_run_policy
validate_run_policy-required p name h k c = ground (
  arith,
  str_eq_iff p.forced_tool "",
  required_among-contains p.allowed_tools p.required_tools name,
  h,
  k,
  c,
)

-- A policy that NewSession accepts can be satisfied: where it forces a tool, it lets calls of this tool
-- through, whatever else it asks for; and where it forces none, it lets calls of each of its required tools
-- through.
pub validate_run_policy-admits :
    (p : RunPolicy)
    → validate_run_policy p ≡ none
    → (p.forced_tool ≢ "" → enforce_run_policy p p.forced_tool ≡ none)
      × (p.forced_tool ≡ ""
          → (name : String) → contains p.required_tools name ≡ true
          → enforce_run_policy p name ≡ none)
validate_run_policy-admits p h =
    (validate_run_policy-forced p h, λ f name k. validate_run_policy-required p name h f k)

module _ {S : Type 0} (host : Host) (interrupt : ℕ → Option GoError)
    (yield : S → Chunk → S × Option GoError) where
  -- A call of a session either is let through by the policy, takes a step that the budget grants and
  -- has no environment or one of this session, and then is the registry's call; or it returns an
  -- error with the consumer and the registry as they were, and where the policy refused it, with the
  -- budget as it was.
  pub execute-admits :
      (s : Session) (call : ToolCall) (runtime : RuntimeState) (c : S) {r : Registry}
      → s.reg ≡ some r
      → let run = execute host interrupt yield s call runtime c in
        (IsAllowed s.policy call.tool_name
          × ((consume_step s.track).1 ≡ none)
          × (env_error s call.env ≡ none)
          × (run ≡ run_in host interrupt yield r call (consume_step s.track).0 runtime c))
        ⊎ ((e : GoError) × (t : SessionTrack) × (run ≡ stopped host interrupt yield t runtime c e)
            × (enforce_run_policy s.policy call.tool_name ≢ none → t ≡ s.track))
  unfolding execute
  execute-admits s call runtime c {r} found =
      elim (Option-cases (enforce_run_policy s.policy call.tool_name)) [
        | inr (e, bad) ↦ inr (e, s.track, ground (arith, found, bad), λ k. refl)
        | inl passes ↦ elim (Option-cases (consume_step s.track).1) [
          | inr (e, bad) ↦ inr (
            e,
            (consume_step s.track).0,
            ground (arith, found, passes, bad),
            λ k. absurd (k passes),
          )
          | inl granted ↦ elim (Option-cases (env_error s call.env)) [
            | inr (e, bad) ↦ inr (
              e,
              (consume_step s.track).0,
              ground (arith, found, passes, granted, bad),
              λ k. absurd (k passes),
            )
            | inl bound ↦ inl (
              (enforce_run_policy-IsAllowed s.policy call.tool_name).0 passes,
              granted,
              bound,
              ground (arith, found, passes, granted, bound),
            )
          ]
        ]
      ]
