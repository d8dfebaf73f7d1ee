-- ===== src/Snapshot/Hydration.antt =====
-- state_api.go: what an import of a snapshot leaves behind, whether it succeeds or fails.
use toolsy.Prelude.{
  String, true, Option, none, some, List, [], ◌∷◌, ◌≡◌, ◌≢◌, ◌⊎◌, inl, inr, refl, sym, arith, All,
  Bool-cases, Option-cases, ◌||◌, ◌==◌, is_empty, ==_iff,
}
use toolsy.Errors.{GoError, ok, Result-cases, ok_injective}
use toolsy.Bytes.{Bytes}
use toolsy.Snapshot.{
  StateSlotPolicy, SessionSnapshot, find_key, lookup, slot_policies, version_and_payload,
  session_snapshot_version, not_positive,
}
use toolsy.Snapshot.State.{StateMap, Wire, Json, SessionOptions, StateSession}
use toolsy.Snapshot.Decode.{
  decode_entry, keep, with_required, decode_state_clear, decode_state_value, decode_entries,
  first_missing, validate_required_state_slots, decode_state_payload,
}
use toolsy.Snapshot.Checkpoint.{import_snapshot, validate_session_binding_compatible}

module _ {V : Type 0} where
  -- Every required slot has a value.
  abbrev pub HasRequired : StateMap V → List (String × StateSlotPolicy) → Type 0
  HasRequired m ps = All (λ p. p.1.required ≡ true → find_key m p.0 ≢ none) ps

  -- Every key of the map has a codec.
  abbrev pub HasCodecs : SessionOptions V → StateMap V → Type 0
  HasCodecs o m = All (λ p. lookup o.codec_registry p.0 ≢ none) m

  first_missing-HasRequired :
      (json : Json V) (m : StateMap V) (ps : List (String × StateSlotPolicy))
      → first_missing m ps ≡ none
      → HasRequired m ps
  unfolding first_missing
  first_missing-HasRequired json m [] h = tt
  first_missing-HasRequired json m ((key, p) ∷ ps) h =
      ground (arith, first_missing-HasRequired json m ps)

  decode_entry-registered :
      (json : Json V) (o : SessionOptions V) (key : String) (raw : Bytes) (v : Option (Option V))
      → o.strict_state_codecs ≡ true
      → decode_entry json o key raw ≡ ok v
      → lookup o.codec_registry key ≢ none
  unfolding decode_entry decode_state_clear decode_state_value
  decode_entry-registered json o key raw v s h = ground arith

  decode_entries-HasCodecs :
      (json : Json V) (o : SessionOptions V) (w : Wire) (m : StateMap V)
      → o.strict_state_codecs ≡ true
      → decode_entries json o w ≡ ok m
      → HasCodecs o m
  unfolding decode_entries
  decode_entries-HasCodecs json o [] m s h = rw (sym (ok_injective h)) tt
  decode_entries-HasCodecs json o ((key, raw) ∷ w) m s h =
      elim (Result-cases (decode_entry json o key raw)) [
        | inr (e, f) ↦ absurd (cc (rw f at h))
        | inl (v, f) ↦ elim (Result-cases (decode_entries json o w)) [
          | inr (e, g) ↦ absurd (cc (rw (f, g) at h))
          | inl (n, g) ↦
              let found = decode_entry-registered json o key raw v s f in
              let rest = decode_entries-HasCodecs json o w n s g in
              rw (← ok_injective (rw (f, g) at h)) (kept v n found rest)
        ]
      ]
    where
      kept :
          (v : Option (Option V)) (n : StateMap V)
          → lookup o.codec_registry key ≢ none
          → HasCodecs o n
          → HasCodecs o (keep json key v n)
      kept none n found rest = rest
      kept (some u) n found rest = (found, rest)

  -- What a decoded state satisfies.
  abbrev pub IsDecoded : Json V → SessionOptions V → Bytes → StateMap V → Type 0
  IsDecoded json o payload m =
      (o.strict_state_codecs ≡ true → HasCodecs o m)
      × ((json.unmarshal_map payload ≡ ok none) ⊎ HasRequired m (slot_policies o.codec_registry))

  with_required-IsDecoded :
      (json : Json V) (o : SessionOptions V) (w : Wire) (m n : StateMap V)
      → decode_entries json o w ≡ ok n
      → with_required o n ≡ ok m
      → (o.strict_state_codecs ≡ true → HasCodecs o m)
        × HasRequired m (slot_policies o.codec_registry)
  unfolding validate_required_state_slots
  with_required-IsDecoded json o w m n d h =
      elim (Option-cases (validate_required_state_slots o n)) [
        | inr (e, f) ↦ absurd (cc (rw (with_required, f) at h))
        | inl f ↦
            let same : n ≡ m = ok_injective (rw (with_required, f) at h) in
            rw (← same) (
              λ s. decode_entries-HasCodecs json o w n s d,
              first_missing-HasRequired json n (slot_policies o.codec_registry) f,
            )
      ]

  decode_state_payload-IsDecoded :
      (json : Json V) (o : SessionOptions V) (payload : Bytes) (m : StateMap V)
      → decode_state_payload json o payload ≡ ok m
      → IsDecoded json o payload m
  unfolding decode_state_payload
  decode_state_payload-IsDecoded json o payload m h =
      elim (Result-cases (json.unmarshal_map payload)) [
        | inr (e, f) ↦ absurd (cc (rw f at h))
        | inl (none, f) ↦ (λ s. rw (← ok_injective (rw f at h)) tt, inl f)
        | inl (some w, f) ↦ elim (Result-cases (decode_entries json o w)) [
          | inr (e, g) ↦ absurd (cc (rw (f, g) at h))
          | inl (n, g) ↦
              let (codecs, required) = with_required-IsDecoded json o w m n g (rw (f, g) at h) in
              (codecs, inr required)
        ]
      ]

  -- What an import of a snapshot comes to: the session as it was, or one that has only another state,
  -- decoded from a snapshot of the right version and of a compatible binding.
  abbrev pub IsImport :
      Json V → StateSession V → SessionSnapshot → StateSession V × Option GoError → Type 0
  IsImport json s snap (t, some e) = t ≡ s
  IsImport json s snap (t, none) =
      (snap.version ≡ session_snapshot_version)
      × (validate_session_binding_compatible snap.binding s.binding ≡ none)
      × (t ≡ record s { state = t.state })
      × IsDecoded json s.opts snap.payload t.state

  -- An import of a snapshot that fails leaves the session as it was. One that succeeds has a snapshot of
  -- version 1 whose binding is compatible with the session's, and replaces nothing but the state; if the
  -- codecs are strict, every key of the new state has a codec, and every required slot has a value there
  -- unless the payload is the JSON text `null`.
  pub import_snapshot-IsImport :
      (json : Json V) (s : StateSession V) (snap : SessionSnapshot)
      → IsImport json s snap (import_snapshot json s snap)
  unfolding import_snapshot version_and_payload
  import_snapshot-IsImport json s snap =
      elim (Bool-cases (not_positive snap.version || is_empty snap.payload)) [
        | inl b ↦ rw b refl
        | inr b ↦ elim (Bool-cases (snap.version == session_snapshot_version)) [
          | inr v ↦ rw (b, v) refl
          | inl v ↦
              elim (Option-cases (validate_session_binding_compatible snap.binding s.binding)) [
                | inr (e, f) ↦ rw (b, v, f) refl
                | inl f ↦ elim (Result-cases (decode_state_payload json s.opts snap.payload)) [
                  | inr (e, g) ↦ rw (b, v, f, g) refl
                  | inl (m, g) ↦
                      rw (b, v, f, g)
                        (
                          (==_iff snap.version session_snapshot_version).0 v,
                          f,
                          refl,
                          decode_state_payload-IsDecoded json s.opts snap.payload m g,
                        )
                ]
              ]
        ]
      ]
