-- ===== src/Snapshot/Checkpoint.antt =====
-- state_api.go (ImportSnapshot), session_binding.go, session.go (NewSession): what a session's state is
-- bound to, and how a session is made from a checkpoint or moved to another registry.
--
-- A registry comes with the snapshot of the view that it is; a nil registry is `none`.
use toolsy.Prelude.{
  ℕ, String, Bool, true, false, not, ◌&&◌, Option, none, some, List, [], ◌∷◌, str_eq, if◌then◌else◌,
  ◌==◌,
}
use toolsy.Errors.{
  GoError, lit, amount, message, wrap, to_error, code_tools_contract_missing, Result, ok, err,
  ◌>>=◌,
}
use toolsy.Errors.Decoding.{new_snapshot_hydration_error}
use toolsy.Bytes.{Bytes}
use toolsy.Registry.{Registry, lookup_tool}
use toolsy.Session.{new_session_track, validate_run_policy}
use toolsy.Views.{RegistryViewSnapshot, RegistryView, Digests, tool_names}
use toolsy.Snapshot.{
  StateCodecRegistry, SessionBinding, SessionSnapshot, session_snapshot_version,
  version_and_payload,
}
use toolsy.Snapshot.State.{Json, SessionOptions, StateSession, export_snapshot}
use toolsy.Snapshot.Decode.{decode_state_payload}

-- slices.Equal
unfoldable pub same_names : List String → List String → Bool
same_names [] [] = true
same_names [] (b ∷ ys) = false
same_names (a ∷ xs) [] = false
same_names (a ∷ xs) (b ∷ ys) = str_eq a b && same_names xs ys

abbrev binding_mismatch : String → String → GoError
binding_mismatch reason arg =
    GoError.tool
      (record {
        code = code_tools_contract_missing;
        retryable = false;
        reason = lit "session binding " ∷ lit reason ∷ [];
        fixable_args = arg ∷ [];
        safe_message = [];
      })
      (wrap (lit "toolsy: session binding" ∷ []) (message (lit reason ∷ [])))

abbrev require : Bool → String → String → Option GoError → Option GoError
require true reason arg rest = rest
require false reason arg rest = some (binding_mismatch reason arg)

unfoldable pub validate_session_binding_compatible :
    SessionBinding → SessionBinding → Option GoError
unfolding same_names
validate_session_binding_compatible want got =
    require (str_eq want.manifest_digest got.manifest_digest) "manifest digest mismatch"
      "manifest_digest"
      (require (str_eq want.policy_digest got.policy_digest) "policy digest mismatch"
        "policy_digest"
        (require (str_eq want.state_schema_digest got.state_schema_digest)
          "state schema digest mismatch" "state_schema_digest"
          (require (str_eq want.view.id got.view.id) "view id mismatch" "view.id" (
            require (same_names want.tool_names got.tool_names) "tool set mismatch" "tool_names"
              none))))

abbrev pub no_view : RegistryViewSnapshot
no_view = record {
  id = "";
  tool_names = none;
  required_tool_names = [];
  manifest_digest = "";
  policy_digest = "";
  reason = "";
  owner = "";
}

abbrev unsupported : ℕ → GoError
unsupported n = to_error (
    new_snapshot_hydration_error (lit "unsupported session snapshot version " ∷ amount n ∷ [])
      (message (lit "toolsy: unsupported session snapshot version " ∷ amount n ∷ [])))

pub record SessionCheckpoint : Type 0 where
  pub binding : SessionBinding
  pub snapshot : SessionSnapshot

module _ {V : Type 0} (json : Json V) where
  -- ImportSnapshot up to the replacement of the state: the new session.
  abbrev import_payload : StateSession V → SessionSnapshot → ℕ × Bytes → Result (StateSession V)
  import_payload s snap (version, payload) =
      if not (version == session_snapshot_version)
      then err (unsupported version)
      else elim (validate_session_binding_compatible snap.binding s.binding) [
        | some e ↦ err e
        | none ↦ decode_state_payload json s.opts payload >>= λ m. ok (record s { state = m })
      ]

  abbrev or_unchanged : StateSession V → Result (StateSession V) → StateSession V × Option GoError
  or_unchanged s (ok t) = (t, none)
  or_unchanged s (err e) = (s, some e)

  -- Session.ImportSnapshot of a session that is not nil
  unfoldable pub import_snapshot :
      StateSession V → SessionSnapshot → StateSession V × Option GoError
  unfolding version_and_payload validate_session_binding_compatible decode_state_payload
  import_snapshot s snap = or_unchanged s (version_and_payload snap >>= import_payload s snap)

  unfoldable pub export_checkpoint : StateSession V → Result SessionCheckpoint
  unfolding export_snapshot
  export_checkpoint s = do
    snap ← export_snapshot json s
    ok (record { binding = s.binding; snapshot = snap })

-- `schema_digest` is stateSchemaDigest, a hash of the codecs' policies and fingerprints.
module _ {V : Type 0} (digests : Digests)
    (schema_digest : Option (StateCodecRegistry V) → String) where
  unfoldable pub new_session_binding :
      Option RegistryView → SessionOptions V → Result SessionBinding
  unfolding lookup_tool
  new_session_binding none o = ok (record {
    view = no_view;
    tool_names = [];
    manifest_digest = "";
    policy_digest = "";
    state_schema_digest = schema_digest o.codec_registry;
  })
  new_session_binding (some v) o = do
    digest ← digests.manifest_digest (lookup_tool v.reg.tools)
    ok (record {
      view = v.snapshot;
      tool_names = digests.sort (tool_names v.reg);
      manifest_digest = digest;
      policy_digest = v.reg.opts.policy_digest;
      state_schema_digest = schema_digest o.codec_registry;
    })

  abbrev registry_of : Option RegistryView → Option Registry
  registry_of none = none
  registry_of (some v) = some v.reg

  abbrev pub fresh : ℕ → Option RegistryView → SessionOptions V → SessionBinding → StateSession V
  fresh id reg o binding = record {
    session = record {
      id = id;
      reg = registry_of reg;
      track = new_session_track o.max_steps;
      policy = o.policy;
    };
    opts = o;
    binding = binding;
    state = [];
  }

  -- NewSession; `id` names the session.
  unfoldable pub new_session : ℕ → Option RegistryView → SessionOptions V → Result (StateSession V)
  unfolding validate_run_policy new_session_binding
  new_session id reg o = elim (validate_run_policy o.policy) [
    | some e ↦ err e
    | none ↦ new_session_binding reg o >>= λ binding. ok (fresh id reg o binding)
  ]

  abbrev rebound :
      StateSession V → Option RegistryView → SessionBinding → StateSession V × Option GoError
  rebound s reg target = elim (validate_session_binding_compatible s.binding target) [
    | some e ↦ (s, some e)
    | none ↦
        (record s { session = record s.session { reg = registry_of reg }; binding = target }, none)
  ]

  -- Session.Rebind of a session that is not nil
  unfoldable pub rebind : StateSession V → Option RegistryView → StateSession V × Option GoError
  unfolding new_session_binding validate_session_binding_compatible
  rebind s reg = elim (new_session_binding reg s.opts) [
    | err e ↦ (s, some e)
    | ok target ↦ rebound s reg target
  ]

module _ {V : Type 0} (json : Json V) (digests : Digests)
    (schema_digest : Option (StateCodecRegistry V) → String) where
  abbrev import_done : StateSession V × Option GoError → Result (StateSession V)
  import_done (s, none) = ok s
  import_done (s, some e) = err e

  unfoldable pub from_checkpoint : SessionCheckpoint → StateSession V → Result (StateSession V)
  unfolding validate_session_binding_compatible import_snapshot
  from_checkpoint c s = elim (validate_session_binding_compatible c.binding s.binding) [
    | some e ↦ err e
    | none ↦ import_done (import_snapshot json s c.snapshot)
  ]

  unfoldable pub new_session_from_checkpoint :
      ℕ → Option RegistryView → SessionCheckpoint → SessionOptions V → Result (StateSession V)
  unfolding new_session from_checkpoint
  new_session_from_checkpoint id reg c o =
      new_session digests schema_digest id reg o >>= from_checkpoint c
