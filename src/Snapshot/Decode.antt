-- ===== src/Snapshot/Decode.antt =====
-- state_api.go: a snapshot's payload read back into the state of a session.
use toolsy.Prelude.{
  String, Bool, true, false, not, ◌&&◌, Option, none, some, List, [], ◌∷◌, if◌then◌else◌, ◌==◌,
}
use toolsy.Errors.{GoError, lit, quoted, message, wrap, to_error, Result, ok, err, ◌>>=◌}
use toolsy.Errors.Decoding.{new_snapshot_hydration_error, new_state_codec_missing_error}
use toolsy.Bytes.{Bytes, trim_space}
use toolsy.Snapshot.{StateSlotPolicy, StateCodecEntry, find_key, lookup, slot_policies}
use toolsy.Snapshot.State.{StateMap, Wire, Json, SessionOptions, wrapped}

unfoldable pub is_state_clear_raw : Bytes → Bool
unfolding trim_space
is_state_clear_raw raw = elim (trim_space raw) [
  | [] ↦ true
  | a ∷ [] ↦ false
  | a ∷ b ∷ [] ↦ false
  | a ∷ b ∷ c ∷ [] ↦ false
  | a ∷ b ∷ c ∷ d ∷ [] ↦ a == 110 && b == 117 && c == 108 && d == 108
  | a ∷ b ∷ c ∷ d ∷ e ∷ rest ↦ false
]

abbrev null_slot : String → GoError
null_slot key = to_error (
    new_snapshot_hydration_error (lit "state key " ∷ quoted key ∷ lit " is null" ∷ []) (
      message
        (lit "toolsy: state key " ∷ quoted key ∷ lit " is null but slot is non-nullable" ∷ [])))

abbrev missing_slot : String → GoError
missing_slot key = to_error (
    new_snapshot_hydration_error (lit "required state key " ∷ quoted key ∷ lit " is missing" ∷ [])
      (message (lit "toolsy: required state key " ∷ quoted key ∷ lit " is missing" ∷ [])))

module _ {V : Type 0} where
  abbrev decoded : String → String → Result (Option V) → Result (Option V)
  decoded reason key (ok v) = ok v
  decoded reason key (err e) = err (wrapped reason key e)

  -- The value, where it is kept.
  unfoldable pub decode_registered_state_clear :
      String → Bytes → StateCodecEntry V → Result (Option (Option V))
  decode_registered_state_clear key raw entry =
      if not entry.state_policy.nullable
      then err (null_slot key)
      else decoded "failed to decode nullable state key " key (entry.decode_bytes raw) >>= λ v.
          ok (some v)

  unfoldable pub decode_state_clear : SessionOptions V → String → Bytes → Result (Option (Option V))
  unfolding lookup decode_registered_state_clear
  decode_state_clear o key raw = elim (lookup o.codec_registry key) [
    | some entry ↦ decode_registered_state_clear key raw entry
    | none ↦
        if o.strict_state_codecs
        then err (to_error (new_state_codec_missing_error key))
        else ok none
  ]

  unfoldable pub first_missing : StateMap V → List (String × StateSlotPolicy) → Option GoError
  unfolding find_key
  first_missing m [] = none
  first_missing m ((key, p) ∷ ps) =
      let rest = first_missing m ps in
      if not p.required
      then rest
      else elim (find_key m key) [ some v ↦ rest | none ↦ some (missing_slot key) ]

  unfoldable pub validate_required_state_slots : SessionOptions V → StateMap V → Option GoError
  unfolding first_missing slot_policies
  validate_required_state_slots o m = first_missing m (slot_policies o.codec_registry)

  abbrev pub with_required : SessionOptions V → StateMap V → Result (StateMap V)
  with_required o m = elim (validate_required_state_slots o m) [ none ↦ ok m | some e ↦ err e ]

module _ {V : Type 0} (json : Json V) where
  unfoldable pub decode_state_value : SessionOptions V → String → Bytes → Result (Option V)
  unfolding lookup
  decode_state_value o key raw = elim (lookup o.codec_registry key) [
    | some entry ↦ decoded "failed to decode state key " key (entry.decode_bytes raw)
    | none ↦
        if o.strict_state_codecs
        then err (to_error (new_state_codec_missing_error key))
        else decoded "failed to unmarshal state key " key (json.unmarshal_value raw)
  ]

  -- The body of the loop of decodeStatePayload: what becomes of one entry.
  unfoldable pub decode_entry : SessionOptions V → String → Bytes → Result (Option (Option V))
  unfolding is_state_clear_raw decode_state_clear decode_state_value
  decode_entry o key raw =
      if is_state_clear_raw raw
      then decode_state_clear o key raw
      else decode_state_value o key raw >>= λ v. ok (some v)

  abbrev pub keep : String → Option (Option V) → StateMap V → StateMap V
  keep key none m = m
  keep key (some v) m = (key, v) ∷ m

  -- The loop; the keys of a wire map are distinct.
  unfoldable pub decode_entries : SessionOptions V → Wire → Result (StateMap V)
  unfolding decode_entry
  decode_entries o [] = ok []
  decode_entries o ((key, raw) ∷ wire) = do
    kept ← decode_entry o key raw
    m ← decode_entries o wire
    ok (keep key kept m)

  abbrev invalid_payload : GoError → GoError
  invalid_payload e = to_error (
      new_snapshot_hydration_error (lit "invalid session snapshot payload" ∷ [])
        (wrap (lit "toolsy: invalid session snapshot payload" ∷ []) e))

  abbrev decode_wire : SessionOptions V → Result (Option Wire) → Result (StateMap V)
  decode_wire o (err e) = err (invalid_payload e)
  decode_wire o (ok none) = ok []
  decode_wire o (ok (some wire)) = decode_entries o wire >>= with_required o

  unfoldable pub decode_state_payload : SessionOptions V → Bytes → Result (StateMap V)
  unfolding decode_entries validate_required_state_slots
  decode_state_payload o payload = decode_wire o (json.unmarshal_map payload)
