-- ===== src/Snapshot.antt =====
-- state_codec.go: the codecs of session state, by key, and snapshots.
--
-- A value of the state (`any`) that is not nil is of a type `V`; a nil one is `none`. What reflection
-- says of a value's type is a parameter of the entry. A version is an `int` in two's complement.
pub mod State
pub mod Decode
pub mod Checkpoint
pub mod Hydration
pub mod RoundTrip
mod Tests
use toolsy.Prelude.{
  ℕ, String, Bool, true, false, not, ◌||◌, Option, none, some, List, [], ◌∷◌, map, str_eq,
  if◌then◌else◌, ◌==◌, is_empty,
}
use toolsy.Errors.{GoError, lit, quoted, message, to_error, Result, ok, err}
use toolsy.Errors.Decoding.{new_snapshot_hydration_error}
use toolsy.Bytes.{Bytes}
use toolsy.Session.{is_negative}
use toolsy.Views.{RegistryViewSnapshot}

pub record StateSlotPolicy : Type 0 where
  pub required : Bool
  pub nullable : Bool
  pub schema_id : String

abbrev pub StateSlotOption : Type 0
StateSlotOption = StateSlotPolicy → StateSlotPolicy

abbrev pub with_state_slot_required : StateSlotOption
with_state_slot_required p = record p { required = true }

abbrev pub with_state_slot_nullable : Bool → StateSlotOption
with_state_slot_nullable b p = record p { nullable = b }

abbrev pub with_state_slot_schema_id : String → StateSlotOption
with_state_slot_schema_id id p = record p { schema_id = id }

abbrev apply_options : List StateSlotOption → StateSlotPolicy → StateSlotPolicy
apply_options [] p = p
apply_options (o ∷ os) p = apply_options os (o p)

unfoldable pub state_slot_policy : List StateSlotOption → StateSlotPolicy
state_slot_policy os =
    apply_options os (record { required = false; nullable = false; schema_id = "" })

pub record StateCodec (T : Type 0) : Type 0 where
  pub encode : T → Result Bytes
  pub decode : Bytes → Result T

abbrev pub type_mismatch : GoError
type_mismatch = to_error (
    new_snapshot_hydration_error (lit "state value type mismatch" ∷ [])
      (message (lit "toolsy: state value type mismatch for key" ∷ [])))

-- stateCodecEntry
pub record StateCodecEntry (V : Type 0) : Type 0 where
  pub encode_value : Option V → Result Bytes
  pub decode_bytes : Bytes → Result (Option V)
  pub state_policy : StateSlotPolicy
  pub schema_fingerprint : String

abbrev encode_typed : {T : Type 0} → StateCodec T → Option T → Result Bytes
encode_typed c none = err type_mismatch
encode_typed c (some t) = c.encode t

module _ {V : Type 0} where
  abbrev decode_typed : {T : Type 0} → (T → Option V) → Result T → Result (Option V)
  decode_typed to_any (ok t) = ok (to_any t)
  decode_typed to_any (err e) = err e

  -- typedStateCodecEntry, with the type assertion and the conversion to `any`
  unfoldable pub typed_state_codec_entry :
      {T : Type 0}
      → (Option V → Option T)
      → (T → Option V)
      → StateCodec T
      → StateSlotPolicy
      → String
      → StateCodecEntry V
  typed_state_codec_entry assert to_any c p fingerprint = record {
    encode_value = λ v. encode_typed c (assert v);
    decode_bytes = λ bs. decode_typed to_any (c.decode bs);
    state_policy = p;
    schema_fingerprint = fingerprint;
  }

  abbrev encode_reflected : (V → Bool) → (Option V → Result Bytes) → Option V → Result Bytes
  encode_reflected same_type marshal none = marshal none
  encode_reflected same_type marshal (some v) =
      if same_type v then marshal (some v) else err type_mismatch

  -- reflectJSONCodec, with the test of a value's type, json.Marshal, and json.Unmarshal into the type
  unfoldable pub reflect_json_codec :
      (V → Bool)
      → (Option V → Result Bytes)
      → (Bytes → Result (Option V))
      → StateSlotPolicy
      → String
      → StateCodecEntry V
  reflect_json_codec same_type marshal unmarshal p fingerprint = record {
    encode_value = encode_reflected same_type marshal;
    decode_bytes = unmarshal;
    state_policy = p;
    schema_fingerprint = fingerprint;
  }

-- The map from keys to codecs, an entry for each key.
abbrev pub StateCodecRegistry : Type 0 → Type 0
StateCodecRegistry V = List (String × StateCodecEntry V)

-- What a key finds in a map.
unfoldable pub find_key : {A : Type 0} → List (String × A) → String → Option A
find_key [] key = none
find_key ((k, a) ∷ m) key = if str_eq k key then some a else find_key m key

abbrev refused : {A : Type 0} → String → Result A
refused t = err (message (lit t ∷ []))

module _ {V : Type 0} where
  abbrev store_codec :
      StateCodecRegistry V
      → String
      → StateCodecEntry V
      → Option (StateCodecEntry V)
      → Result (StateCodecRegistry V)
  store_codec r key entry none = ok ((key, entry) ∷ r)
  store_codec r key entry (some e) =
      err (message (lit "toolsy: state codec key " ∷ quoted key ∷ lit " already registered" ∷ []))

  -- RegisterStateCodec, for the entry that the codec makes, or none where the codec is nil; a nil
  -- registry is `none`.
  unfoldable pub register_state_codec :
      Option (StateCodecRegistry V)
      → String
      → Option (StateSlotPolicy → StateCodecEntry V)
      → List StateSlotOption
      → Result (StateCodecRegistry V)
  unfolding find_key state_slot_policy
  register_state_codec none key codec os = refused "toolsy: nil StateCodecRegistry"
  register_state_codec (some r) key codec os =
      if str_eq key "" then refused "toolsy: state codec key is required" else elim codec [
        | none ↦ refused "toolsy: state codec must not be nil"
        | some entry ↦ store_codec r key (entry (state_slot_policy os)) (find_key r key)
      ]

  -- StateCodecRegistry.lookup
  unfoldable pub lookup : Option (StateCodecRegistry V) → String → Option (StateCodecEntry V)
  unfolding find_key
  lookup none key = none
  lookup (some r) key = if str_eq key "" then none else find_key r key

  unfoldable pub slot_policies : Option (StateCodecRegistry V) → List (String × StateSlotPolicy)
  slot_policies none = []
  slot_policies (some r) = map (λ p. (p.0, p.1.state_policy)) r

pub record SessionBinding : Type 0 where
  pub view : RegistryViewSnapshot
  pub tool_names : List String
  pub manifest_digest : String
  pub policy_digest : String
  pub state_schema_digest : String

pub record SessionSnapshot : Type 0 where
  pub version : ℕ
  pub payload : Bytes
  pub binding : SessionBinding

abbrev pub session_snapshot_version : ℕ
session_snapshot_version = 1

-- `version <= 0`
abbrev pub not_positive : ℕ → Bool
not_positive n = n == 0 || is_negative n

abbrev hydration : String → String → GoError
hydration reason cause =
    to_error (new_snapshot_hydration_error (lit reason ∷ []) (message (lit cause ∷ [])))

abbrev empty_snapshot : GoError
empty_snapshot = hydration "empty session snapshot" "toolsy: empty session snapshot"

unfoldable pub version_and_payload : SessionSnapshot → Result (ℕ × Bytes)
version_and_payload s =
    if not_positive s.version || is_empty s.payload
    then err empty_snapshot
    else ok (s.version, s.payload)

-- MarshalJSON and NewSessionSnapshotFromJSON, with the encoding of the wire form; the wire form of a
-- snapshot has the snapshot's own fields.
module _ (marshal : SessionSnapshot → Result Bytes)
    (unmarshal : Bytes → Result SessionSnapshot) where
  unfoldable pub marshal_json : SessionSnapshot → Result Bytes
  marshal_json s =
      if not_positive s.version || is_empty s.payload then err empty_snapshot else marshal s

  abbrev checked_wire : SessionSnapshot → Result SessionSnapshot
  checked_wire w =
      if not_positive w.version
      then err (
          hydration "session snapshot version is required"
            "toolsy: session snapshot version is required")
      else if is_empty w.payload
      then err (
          hydration "session snapshot payload is required"
            "toolsy: session snapshot payload is required")
      else ok w

  abbrev read_wire : Result SessionSnapshot → Result SessionSnapshot
  read_wire (ok w) = checked_wire w
  read_wire (err e) = err (
      to_error (
        new_snapshot_hydration_error (lit "invalid session snapshot" ∷ [])
          (GoError.wrap (lit "toolsy: invalid session snapshot" ∷ []) e)))

  unfoldable pub new_session_snapshot_from_json : Bytes → Result SessionSnapshot
  new_session_snapshot_from_json bs = read_wire (unmarshal bs)
