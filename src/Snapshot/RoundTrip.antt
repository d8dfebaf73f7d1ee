-- ===== src/Snapshot/RoundTrip.antt =====
-- session_binding.go, state_api.go: a session that is made from a checkpoint of another one.
use toolsy.Prelude.{
  ℕ, String, true, false, Option, none, some, [], ◌∷◌, ◌≡◌, refl, is_empty, Bool, List, All,
  All-map, Option-cases, inl, inr,
}
use toolsy.Errors.{ok, err, Result-cases, ok_injective}
use toolsy.Bytes.{Bytes}
use toolsy.Session.{validate_run_policy}
use toolsy.Views.{RegistryView, Digests}
use toolsy.Snapshot.{
  StateCodecEntry, StateCodecRegistry, SessionSnapshot, lookup, version_and_payload,
}
use toolsy.Snapshot.State.{
  StateMap, Wire, Json, SessionOptions, StateSession, empty_object, encode_state_value,
  encode_entries, encode_state_payload, export_snapshot,
}
use toolsy.Snapshot.Decode.{
  is_state_clear_raw, decode_state_value, decode_entry, decode_entries,
  validate_required_state_slots, decode_state_payload, with_required,
}
use toolsy.Snapshot.Checkpoint.{
  SessionCheckpoint, from_checkpoint, validate_session_binding_compatible, import_snapshot,
  new_session, new_session_binding, export_checkpoint, new_session_from_checkpoint,
}

-- The entries of a state that are not nil.
abbrev pub non_nil : {V : Type 0} → StateMap V → StateMap V
non_nil [] = []
non_nil ((key, none) ∷ m) = non_nil m
non_nil ((key, some v) ∷ m) = (key, some v) ∷ non_nil m

-- A map as the list of its entries, in the order of their keys.
abbrev pub IsOrdered : {A : Type 0} → (String → String → Bool) → List (String × A) → Type 0
IsOrdered before [] = Unit
IsOrdered before ((key, a) ∷ m) = All (λ p. before key p.0 ≡ true) m × IsOrdered before m

module _ {V : Type 0} (json : Json V) (o : SessionOptions V) (strict : o.strict_state_codecs ≡ true)
    (before : String → String → Bool) (compact : Bytes → Bool)
    (faithful : (key : String) (entry : StateCodecEntry V) (v : V) (raw : Bytes)
      → lookup o.codec_registry key ≡ some entry
      → entry.encode_value (some v) ≡ ok raw
      → (is_state_clear_raw raw ≡ false)
        × (entry.decode_bytes raw ≡ ok (some v))
        × (compact raw ≡ true)) where
  decode_entry-encode_state_value :
      (key : String) (v : V) (raw : Bytes)
      → encode_state_value json o key v ≡ ok raw
      → decode_entry json o key raw ≡ ok (some (some v))
  unfolding encode_state_value decode_entry decode_state_value
  decode_entry-encode_state_value key v raw h = elim (Option-cases (lookup o.codec_registry key)) [
    | inl f ↦ absurd (cc (rw (encode_state_value, f, strict) at h))
    | inr (entry, f) ↦
        let (solid, back, close) = faithful key entry v raw f (rw (encode_state_value, f) at h) in
        rw (solid, decode_state_value, f, back)
  ]

  decode_entries-encode_entries :
      (m : StateMap V) (w : Wire)
      → encode_entries json o m ≡ ok w
      → decode_entries json o w ≡ ok (non_nil m)
  unfolding encode_entries decode_entries
  decode_entries-encode_entries [] w h = rw (← ok_injective h)
  decode_entries-encode_entries ((key, none) ∷ m) w h = decode_entries-encode_entries m w h
  decode_entries-encode_entries ((key, some v) ∷ m) w h =
      elim (Result-cases (encode_state_value json o key v)) [
        | inr (e, f) ↦ absurd (cc (rw f at h))
        | inl (raw, f) ↦ elim (Result-cases (encode_entries json o m)) [
          | inr (e, g) ↦ absurd (cc (rw (f, g) at h))
          | inl (rest, g) ↦ rw (
            ← ok_injective (rw (f, g) at h),
            decode_entry-encode_state_value key v raw f,
            decode_entries-encode_entries m rest g,
          )
        ]
      ]

  encode_state_value-compact :
      (key : String) (v : V) (raw : Bytes)
      → encode_state_value json o key v ≡ ok raw
      → compact raw ≡ true
  unfolding encode_state_value
  encode_state_value-compact key v raw h = elim (Option-cases (lookup o.codec_registry key)) [
    | inl f ↦ absurd (cc (rw (encode_state_value, f, strict) at h))
    | inr (entry, f) ↦
        let (solid, back, close) = faithful key entry v raw f (rw (encode_state_value, f) at h) in
        close
  ]

  -- What holds of the keys and of the texts of values holds of an encoded map.
  encode_entries-All :
      (P : String → Type 0) (m : StateMap V) (w : Wire)
      → encode_entries json o m ≡ ok w
      → All (λ p. P p.0) m
      → All (λ p. P p.0 × (compact p.1 ≡ true)) w
  unfolding encode_entries
  encode_entries-All P [] w h k = rw (← ok_injective h) tt
  encode_entries-All P ((key, none) ∷ m) w h k = encode_entries-All P m w h k.1
  encode_entries-All P ((key, some v) ∷ m) w h k =
      elim (Result-cases (encode_state_value json o key v)) [
        | inr (e, f) ↦ absurd (cc (rw f at h))
        | inl (raw, f) ↦ elim (Result-cases (encode_entries json o m)) [
          | inr (e, g) ↦ absurd (cc (rw (f, g) at h))
          | inl (rest, g) ↦
              rw (← ok_injective (rw (f, g) at h))
                ((k.0, encode_state_value-compact key v raw f), encode_entries-All P m rest g k.1)
        ]
      ]

  encode_entries-IsOrdered :
      (m : StateMap V) (w : Wire)
      → encode_entries json o m ≡ ok w
      → IsOrdered before m
      → IsOrdered before w
  unfolding encode_entries
  encode_entries-IsOrdered [] w h k = rw (← ok_injective h) tt
  encode_entries-IsOrdered ((key, none) ∷ m) w h k = encode_entries-IsOrdered m w h k.1
  encode_entries-IsOrdered ((key, some v) ∷ m) w h k =
      elim (Result-cases (encode_state_value json o key v)) [
        | inr (e, f) ↦ absurd (cc (rw f at h))
        | inl (raw, f) ↦ elim (Result-cases (encode_entries json o m)) [
          | inr (e, g) ↦ absurd (cc (rw (f, g) at h))
          | inl (rest, g) ↦ rw (← ok_injective (rw (f, g) at h)) (
            All-map (λ p. (before key p.0 ≡ true) × (compact p.1 ≡ true))
                (λ p. before key p.0 ≡ true) rest (λ p q. q.0)
                (encode_entries-All (λ x. before key x ≡ true) m rest g k.0),
            encode_entries-IsOrdered m rest g k.1,
          )
        ]
      ]

  all_keys : (m : StateMap V) → All (λ p. Unit {0}) m
  all_keys [] = tt
  all_keys (p ∷ m) = (tt, all_keys m)

  module _
      (marshals : (w : Wire) (payload : Bytes)
        → IsOrdered before w
        → All (λ p. compact p.1 ≡ true) w
        → json.marshal_map w ≡ ok payload
        → (is_empty payload ≡ false) × (json.unmarshal_map payload ≡ ok (some w)))
      (reads_empty : json.unmarshal_map empty_object ≡ ok (some [])) where
    -- The payload of an exported snapshot.
    abbrev IsExported : StateMap V → Bytes → Type 0
    IsExported m payload =
        (is_empty payload ≡ false)
        × (decode_state_payload json o payload ≡ with_required o (non_nil m))

    encode_state_payload-IsExported :
        (m : StateMap V) (w : Wire) (payload : Bytes)
        → IsOrdered before m
        → encode_entries json o m ≡ ok w
        → json.marshal_map w ≡ ok payload
        → IsExported m payload
    unfolding decode_state_payload
    encode_state_payload-IsExported m w payload order f h =
        let compacted =
          All-map (λ p. Unit {0} × (compact p.1 ≡ true)) (λ p. compact p.1 ≡ true) w (λ p q. q.1)
            (encode_entries-All (λ x. Unit) m w f (all_keys m)) in
        let (full, back) = marshals w payload (encode_entries-IsOrdered m w f order) compacted h in
        (full, rw (back, decode_entries-encode_entries m w f))

    export_snapshot-IsExported :
        (s : StateSession V) (m : StateMap V) (snap : SessionSnapshot)
        → IsOrdered before m
        → export_snapshot json (record s { opts = o; state = m }) ≡ ok snap
        → (snap.version ≡ 1) × (snap.binding ≡ s.binding) × IsExported m snap.payload
    unfolding export_snapshot encode_state_payload decode_state_payload decode_entries
    export_snapshot-IsExported s [] snap order h =
        rw (← ok_injective h) (refl, refl, (refl, rw reads_empty))
    export_snapshot-IsExported s (p ∷ m) snap order h =
        elim (Result-cases (encode_entries json o (p ∷ m))) [
          | inr (e, f) ↦ absurd (cc (rw f at h))
          | inl (w, f) ↦ elim (Result-cases (json.marshal_map w)) [
            | inr (e, g) ↦ absurd (cc (rw (f, g) at h))
            | inl (payload, g) ↦
                let (full, back) = encode_state_payload-IsExported (p ∷ m) w payload order f g in
                rw (← ok_injective (rw (f, g, full) at h)) (refl, refl, (full, back))
          ]
        ]

    -- In a session `t` with the same codecs, the import of a snapshot that was exported.
    import_snapshot-export_snapshot :
        (s : StateSession V) (m : StateMap V) (t : StateSession V) (snap : SessionSnapshot)
        → IsOrdered before m
        → export_snapshot json (record s { opts = o; state = m }) ≡ ok snap
        → validate_session_binding_compatible s.binding t.binding ≡ none
        → t.opts ≡ o
        → import_snapshot json t snap ≡ elim (with_required o (non_nil m)) [
          | ok n ↦ (record t { state = n }, none)
          | err e ↦ (t, some e)
        ]
    unfolding import_snapshot version_and_payload
    import_snapshot-export_snapshot s m t snap order h compatible opts =
        let (version, binding, (full, back)) = export_snapshot-IsExported s m snap order h in
        elim (Result-cases (with_required o (non_nil m))) [
          | inl (n, f) ↦ rw (version, binding, full, compatible, opts, back, f) (rw opts)
          | inr (e, f) ↦ rw (version, binding, full, compatible, opts, back, f) (rw opts)
        ]

    new_session-opts :
        (digests : Digests) (schema_digest : Option (StateCodecRegistry V) → String) (id : ℕ)
        (reg : Option RegistryView) (t : StateSession V)
        → new_session digests schema_digest id reg o ≡ ok t
        → t.opts ≡ o
    unfolding new_session
    new_session-opts digests schema_digest id reg t k =
        elim (Option-cases (validate_run_policy o.policy)) [
          | inr (e, f) ↦ absurd (cc (rw (new_session, f) at k))
          | inl f ↦ elim (Result-cases (new_session_binding digests schema_digest reg o)) [
            | inr (e, g) ↦ absurd (cc (rw (new_session, f, g) at k))
            | inl (b, g) ↦ rw (← ok_injective (rw (new_session, f, g) at k)) refl
          ]
        ]

    -- A session that is made from a checkpoint of another one, under the same options and for a registry
    -- to which the checkpoint's binding is compatible, has the state of that one without the keys whose
    -- value was nil, if this state has all the required slots; else it is refused with the error that
    -- names the first slot missing. The options have strict codecs, each of which decodes what it
    -- encodes, and encodes no value as null or as a text that is not compact. A map stands as the list of
    -- its entries in the order of their keys, in which JSON writes them: the JSON text of such a map, if
    -- its values are compact, is not empty and is read back as this map.
    pub new_session_from_checkpoint-export_checkpoint :
        (digests : Digests) (schema_digest : Option (StateCodecRegistry V) → String) (id : ℕ)
        (reg : Option RegistryView) (s : StateSession V) (m : StateMap V) (c : SessionCheckpoint)
        (t : StateSession V)
        → IsOrdered before m
        → export_checkpoint json (record s { opts = o; state = m }) ≡ ok c
        → new_session digests schema_digest id reg o ≡ ok t
        → validate_session_binding_compatible s.binding t.binding ≡ none
        → new_session_from_checkpoint json digests schema_digest id reg c o
          ≡ elim (validate_required_state_slots o (non_nil m)) [
            | none ↦ ok (record t { state = non_nil m })
            | some e ↦ err e
          ]
    unfolding export_checkpoint new_session_from_checkpoint
    new_session_from_checkpoint-export_checkpoint digests schema_digest id reg s m c t order h k
          compatible =
        elim (Result-cases (export_snapshot json (record s { opts = o; state = m }))) [
          | inr (e, f) ↦ absurd (cc (rw f at h))
          | inl (snap, f) ↦
              let opts = new_session-opts digests schema_digest id reg t k in
              let back = import_snapshot-export_snapshot s m t snap order f compatible opts in
              let bound = ok_injective (rw f at h) in
              elim (Option-cases (validate_required_state_slots o (non_nil m))) [
                | inl g ↦ rw (← bound, k) (rw (from_checkpoint, compatible, back, g))
                | inr (e, g) ↦ rw (← bound, k) (rw (from_checkpoint, compatible, back, g))
              ]
        ]
