-- ===== src/Snapshot/Tests.antt =====
-- Runs of the codecs and of snapshots, on values that are numbers, with one slot.
use toolsy.Prelude.{
  ℕ, String, true, false, Option, none, some, [], ◌∷◌, ◌≡◌, refl, str_eq, str_eq_iff, if◌then◌else◌,
  Bool, not, ◌&&◌, All, ◌==◌, ==_iff, is_empty, Bool-cases, inl, inr,
}
use toolsy.Errors.{GoError, lit, message, Result, ok, err, ok_injective}
use mathlib.Core.Option
use toolsy.Bytes.{Bytes, trim_space, trim_ahead, trim_behind, space_ahead, space_behind}
use toolsy.Session.{RunPolicy, new_session_track, validate_run_policy, validate_tool_names}
use toolsy.Views.{Digests}
use toolsy.Snapshot.{
  StateCodecEntry, SessionBinding, SessionSnapshot, find_key, lookup, slot_policies,
}
use toolsy.Snapshot.State.{
  Wire, Json, SessionOptions, StateSession, StateMap, encode_state_value, encode_entries,
  encode_state_payload, export_snapshot, empty_object, set_session_state, get_session_state,
  put_key,
}
use toolsy.Snapshot.Decode.{is_state_clear_raw, validate_required_state_slots, first_missing}
use toolsy.Snapshot.Checkpoint.{
  SessionCheckpoint, no_view, new_session, new_session_binding, validate_session_binding_compatible,
  same_names, import_snapshot, export_checkpoint, new_session_from_checkpoint,
}
use toolsy.Snapshot.Hydration.{IsImport, import_snapshot-IsImport}
use toolsy.Snapshot.RoundTrip.{IsOrdered, new_session_from_checkpoint-export_checkpoint}

abbrev bad : GoError
bad = message (lit "bad" ∷ [])

-- A codec that knows the number 7 only.
abbrev encode_seven : Option ℕ → Result Bytes
encode_seven none = err bad
encode_seven (some v) = if v == 7 then ok (55 ∷ []) else err bad

abbrev decode_seven : Bytes → Result (Option ℕ)
decode_seven bs = if is_empty bs then err bad else ok (some 7)

abbrev entry : StateCodecEntry ℕ
entry = record {
  encode_value = encode_seven;
  decode_bytes = decode_seven;
  state_policy = record { required = true; nullable = false; schema_id = "" };
  schema_fingerprint = "seven";
}

-- A map with the one key "n" is encoded as its value behind a quote.
abbrev marshal_map : Wire → Result Bytes
marshal_map [] = ok empty_object
marshal_map ((key, raw) ∷ []) = if str_eq key "n" then ok (34 ∷ raw) else err bad
marshal_map (p ∷ q ∷ w) = err bad

abbrev unmarshal_map : Bytes → Result (Option Wire)
unmarshal_map [] = err bad
unmarshal_map (c ∷ raw) = if c == 34 then ok (some (("n", raw) ∷ [])) else ok (some [])

abbrev json : Json ℕ
json = record {
  marshal_map = marshal_map;
  unmarshal_map = unmarshal_map;
  marshal_value = λ v. err bad;
  unmarshal_value = λ bs. err bad;
}

abbrev run_policy : RunPolicy
run_policy = record { forced_tool = ""; required_tools = []; allowed_tools = [] }

abbrev options : SessionOptions ℕ
options = record {
  max_steps = 0;
  policy = run_policy;
  codec_registry = some (("n", entry) ∷ []);
  strict_state_codecs = true;
}

abbrev binding : SessionBinding
binding = record {
  view = no_view;
  tool_names = [];
  manifest_digest = "";
  policy_digest = "";
  state_schema_digest = "s";
}

abbrev digests : Digests
digests = record {
  sort = λ names. names;
  manifest_digest = λ f. ok "m";
  policy_hash = λ p. p;
  snapshot_hash = λ s. ok "i";
}

abbrev state : StateMap ℕ
state = ("gone", none) ∷ ("n", some 7) ∷ []

-- The order of the two keys.
abbrev before : String → String → Bool
before a b = str_eq a "gone" && str_eq b "n"

abbrev compact : Bytes → Bool
compact raw = not (is_empty raw)

abbrev empty_session : StateSession ℕ
empty_session = record {
  session = record { id = 2; reg = none; track = new_session_track 0; policy = run_policy };
  opts = options;
  binding = binding;
  state = [];
}

abbrev snapshot : SessionSnapshot
snapshot = record { version = 1; payload = 34 ∷ 55 ∷ []; binding = binding }

abbrev null_snapshot : SessionSnapshot
null_snapshot = record { version = 1; payload = 34 ∷ 110 ∷ 117 ∷ 108 ∷ 108 ∷ []; binding = binding }

trims : trim_space (32 ∷ 194 ∷ 160 ∷ 55 ∷ 227 ∷ 128 ∷ 128 ∷ 10 ∷ []) ≡ 55 ∷ []
unfolding trim_space trim_ahead trim_behind space_ahead space_behind
trims = refl

abbrev IsFaithful : StateCodecEntry ℕ → Type 0
IsFaithful e =
    (v : ℕ) (raw : Bytes)
    → e.encode_value (some v) ≡ ok raw
    → (is_state_clear_raw raw ≡ false) × (e.decode_bytes raw ≡ ok (some v)) × (compact raw ≡ true)

entry-IsFaithful : IsFaithful entry
unfolding is_state_clear_raw trim_space trim_ahead trim_behind space_ahead space_behind
entry-IsFaithful v raw h = elim (Bool-cases (v == 7)) [
  | inr b ↦ absurd (cc (rw b at h))
  | inl b ↦ rw (← ok_injective (rw b at h), (==_iff v 7).0 b) (refl, refl, refl)
]

faithful :
    (key : String) (e : StateCodecEntry ℕ)
    → lookup options.codec_registry key ≡ some e
    → IsFaithful e
unfolding lookup find_key
faithful key e f = elim (Bool-cases (str_eq key "")) [
  | inl a ↦ absurd (cc (rw a at f))
  | inr a ↦ elim (Bool-cases (str_eq "n" key)) [
    | inr b ↦ absurd (cc (rw (a, b) at f))
    | inl b ↦
        let same : entry ≡ e = Option.some-injective entry e (rw (a, b) at f) in
        rw (← same) entry-IsFaithful
  ]
]

marshals :
    (w : Wire) (payload : Bytes)
    → IsOrdered before w
    → All (λ p. compact p.1 ≡ true) w
    → json.marshal_map w ≡ ok payload
    → (is_empty payload ≡ false) × (json.unmarshal_map payload ≡ ok (some w))
marshals [] payload order close h = rw (← ok_injective h) (refl, refl)
marshals ((key, raw) ∷ []) payload order close h = elim (Bool-cases (str_eq key "n")) [
  | inr b ↦ absurd (cc (rw b at h))
  | inl b ↦ rw (← ok_injective (rw b at h), (str_eq_iff key "n").0 b) (refl, refl)
]
marshals (p ∷ q ∷ w) payload order close h = absurd (cc h)

abbrev checkpoint : SessionCheckpoint
checkpoint = record { binding = binding; snapshot = snapshot }

new_session_from_checkpoint-export_checkpoint_example :
    new_session_from_checkpoint json digests (λ r. "s") 5 none checkpoint options
    ≡ ok (record empty_session {
      session = record empty_session.session { id = 5 };
      state = ("n", some 7) ∷ [];
    })
unfolding export_checkpoint export_snapshot encode_state_payload encode_entries encode_state_value
    lookup find_key new_session new_session_binding validate_run_policy validate_tool_names
    validate_session_binding_compatible same_names validate_required_state_slots first_missing
    slot_policies
new_session_from_checkpoint-export_checkpoint_example =
    new_session_from_checkpoint-export_checkpoint json options refl before compact
      (λ key e v raw f. faithful key e f v raw) marshals refl digests (λ r. "s") 5 none
      empty_session state checkpoint
      (record empty_session { session = record empty_session.session { id = 5 } })
      ((refl, tt), (tt, tt)) refl refl refl

sets_and_gets :
    get_session_state (λ v. some v) (set_session_state empty_session "n" (some 7)) "n" ≡ some 7
unfolding set_session_state get_session_state put_key find_key
sets_and_gets = refl

import_snapshot-IsImport_example :
    IsImport json empty_session snapshot (import_snapshot json empty_session snapshot)
import_snapshot-IsImport_example = import_snapshot-IsImport json empty_session snapshot
