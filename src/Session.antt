-- ===== src/Session.antt =====
-- session.go, runpolicy.go: a session over a registry, its budget of steps and its run policy.
--
-- The counter is an `atomic.Int64`, in two's complement: `% 2 ^ 64`, and a value from 2 ^ 63 on is
-- negative. A nil track or session is `none`.
pub mod Budget
pub mod Policy
pub mod Outcome
pub mod Results
mod Tests
use toolsy.Prelude.{
  ℕ, ◌+◌, ◌-◌, ◌*◌, ◌%◌, ◌^◌, String, Bool, true, false, not, ◌&&◌, ◌||◌, Option, none, some, List,
  [], ◌∷◌, ltb, leb, ◌==◌, str_eq, contains, is_empty, if◌then◌else◌,
}
use toolsy.Errors.{
  GoError, Text, lit, quoted, message, to_error, new_validation_error, new_max_steps_exceeded_error,
  new_tool_not_found_error, Result, ok, err,
}
use toolsy.Chunk.{Chunk}
use toolsy.Tool.{RunEnv}
use toolsy.Tool.Run.{Exit, returned}
use toolsy.Registry.{Registry, RuntimeState}
use toolsy.Registry.Execute.{Host, ToolCall, Executed, refused, execute_with_summary}

-- A word, and the comparison of two words as `int64`.
abbrev pub wrap64 : ℕ → ℕ
wrap64 n = n % 2 ^ 64

abbrev pub is_negative : ℕ → Bool
is_negative n = leb (2 ^ 63) n

abbrev pub signed_lt : ℕ → ℕ → Bool
signed_lt a b =
    if is_negative a
    then (if is_negative b then ltb a b else true)
    else (if is_negative b then false else ltb a b)

pub record SessionTrack : Type 0 where
  pub count : ℕ
  pub max_steps : ℕ

abbrev pub new_session_track : ℕ → SessionTrack
new_session_track max_steps = record { count = 0; max_steps = max_steps }

-- consumeStep of a track: the step is counted, also where it is refused.
unfoldable pub consume_step : SessionTrack → SessionTrack × Option GoError
consume_step t =
    let step = wrap64 (t.count + 1) in
    (
      record t { count = step },
      (if signed_lt 0 t.max_steps && signed_lt t.max_steps step
          then some (to_error new_max_steps_exceeded_error)
          else none),
    )

-- RunPolicy
pub record RunPolicy : Type 0 where
  pub forced_tool : String
  pub required_tools : List String
  pub allowed_tools : List String

abbrev refuse_tool : Text → Option GoError
refuse_tool t = some (to_error (new_validation_error t []))

unfoldable pub enforce_run_policy : RunPolicy → String → Option GoError
enforce_run_policy p name =
    if not (str_eq p.forced_tool "") && not (str_eq name p.forced_tool)
    then refuse_tool
        (lit "tool " ∷ lit name ∷ lit " is not the forced tool " ∷ lit p.forced_tool ∷ [])
    else if not (is_empty p.allowed_tools)
    then (if contains p.allowed_tools name
        then none
        else refuse_tool
            (lit "tool " ∷ lit name ∷ lit " is not allowed by session run policy" ∷ []))
    else if not (is_empty p.required_tools)
    then (if contains p.required_tools name
        then none
        else refuse_tool
            (lit "tool " ∷ lit name ∷ lit " is not in required tools for this session" ∷ []))
    else none

-- validateToolNameList, with the names that were seen
unfoldable pub validate_tool_names : String → List String → List String → Option GoError
validate_tool_names field seen [] = none
validate_tool_names field seen (name ∷ names) =
    let rest = validate_tool_names field (name ∷ seen) names in
    if str_eq name ""
    then some (message (lit "toolsy: " ∷ lit field ∷ lit " must not contain empty tool names" ∷ []))
    else if contains seen name
    then some (message (lit "toolsy: " ∷ lit field ∷ lit " contains duplicate " ∷ quoted name ∷ []))
    else rest

-- The required tools among the allowed ones.
unfoldable pub required_among : List String → List String → Option GoError
required_among allowed [] = none
required_among allowed (name ∷ names) =
    let rest = required_among allowed names in
    if contains allowed name
    then rest
    else some
        (message (lit "toolsy: required tool " ∷ quoted name ∷ lit " is not in allowed tools" ∷ []))

unfoldable pub validate_run_policy_relations : RunPolicy → Option GoError
unfolding required_among
validate_run_policy_relations p =
    let forced = not (str_eq p.forced_tool "") in
    if not (is_empty p.allowed_tools) && forced && not (contains p.allowed_tools p.forced_tool)
    then some (
        message
          (lit "toolsy: forced tool " ∷ quoted p.forced_tool ∷ lit " is not in allowed tools" ∷ []))
    else if not (is_empty p.required_tools)
        && forced
        && not (contains p.required_tools p.forced_tool)
    then some (
        message (
          lit "toolsy: forced tool " ∷ quoted p.forced_tool ∷ lit " is not in required tools" ∷ []))
    else if not (is_empty p.required_tools) && not (is_empty p.allowed_tools)
    then required_among p.allowed_tools p.required_tools
    else none

-- The check of the forced tool's name is made only where that is not empty, and passes there.
unfoldable pub validate_run_policy : RunPolicy → Option GoError
unfolding validate_tool_names validate_run_policy_relations
validate_run_policy p = elim (validate_tool_names "required_tools" [] p.required_tools) [
  | some e ↦ some e
  | none ↦ elim (validate_tool_names "allowed_tools" [] p.allowed_tools) [
    | some e ↦ some e
    | none ↦
        if str_eq p.forced_tool "" && is_empty p.required_tools && is_empty p.allowed_tools
        then none
        else validate_run_policy_relations p
  ]
]

-- A session, which is named by a number for the comparison with the one of an environment.
pub record Session : Type 0 where
  pub id : ℕ
  pub reg : Option Registry
  pub track : SessionTrack
  pub policy : RunPolicy

abbrev bound_to : ℕ → Option ℕ → Bool
bound_to id none = false
bound_to id (some s) = s == id

-- ValidateRunEnvSession of a session and an environment that are not nil
unfoldable pub validate_run_env_session : Session → RunEnv → Option GoError
validate_run_env_session s env =
    if bound_to s.id env.session
    then none
    else refuse_tool (lit "run environment is not bound to this session" ∷ [])

abbrev pub env_error : Session → Option RunEnv → Option GoError
env_error s none = none
env_error s (some env) = validate_run_env_session s env

module _ {S : Type 0} (host : Host) (interrupt : ℕ → Option GoError)
    (yield : S → Chunk → S × Option GoError) where
  -- What Execute leaves behind: the session's track, and the consumer with the registry's state.
  pub record SessionRun : Type 0 where
    pub track : SessionTrack
    pub runtime : RuntimeState
    pub consumer : S
    pub exit : Exit

  abbrev pub stopped : SessionTrack → RuntimeState → S → GoError → SessionRun
  stopped t runtime s e = record {
    track = t;
    runtime = runtime;
    consumer = s;
    exit = returned (some e);
  }

  abbrev pub run_in : Registry → ToolCall → SessionTrack → RuntimeState → S → SessionRun
  run_in r call t runtime s =
      let e = execute_with_summary host r interrupt yield true call runtime s in
      record { track = t; runtime = e.runtime; consumer = e.progress.consumer; exit = e.exit }

  -- The part of Execute after the run policy.
  abbrev pub after_step :
      Session → Registry → ToolCall → RuntimeState → S → SessionTrack × Option GoError → SessionRun
  after_step s r call runtime c (t, some e) = stopped t runtime c e
  after_step s r call runtime c (t, none) = elim (env_error s call.env) [
    | some e ↦ stopped t runtime c e
    | none ↦ run_in r call t runtime c
  ]

  abbrev pub after_policy :
      Session → Registry → ToolCall → RuntimeState → S → Option GoError → SessionRun
  after_policy s r call runtime c (some e) = stopped s.track runtime c e
  after_policy s r call runtime c none = after_step s r call runtime c (consume_step s.track)

  -- Session.Execute of a session that is not nil
  unfoldable pub execute : Session → ToolCall → RuntimeState → S → SessionRun
  execute s call runtime c = elim s.reg [
    | none ↦ stopped s.track runtime c (to_error new_tool_not_found_error)
    | some r ↦ after_policy s r call runtime c (enforce_run_policy s.policy call.tool_name)
  ]
