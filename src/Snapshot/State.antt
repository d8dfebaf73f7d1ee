-- ===== src/Snapshot/State.antt =====
-- state_api.go: the in-memory state of a session, and its snapshots.
--
-- A map is the list of its entries in the order in which `range` gives them, which is any order. JSON is
-- the standard library's: a `Json` encodes and decodes a map of raw values and a single value.
use toolsy.Prelude.{
  ℕ, String, Bool, Option, none, some, List, [], ◌∷◌, str_eq, if◌then◌else◌, is_empty,
}
use toolsy.Errors.{
  GoError, Text, lit, quoted, wrap, to_error, as_tool_error, Result, ok, err, ◌>>=◌,
}
use toolsy.Errors.Decoding.{new_snapshot_hydration_error, new_state_codec_missing_error}
use toolsy.Bytes.{Bytes}
use toolsy.Session.{Session, RunPolicy}
use toolsy.Snapshot.{
  StateCodecRegistry, find_key, lookup, SessionBinding, SessionSnapshot, session_snapshot_version,
}

abbrev pub StateMap : Type 0 → Type 0
StateMap V = List (String × Option V)

abbrev pub Wire : Type 0
Wire = List (String × Bytes)

pub record Json (V : Type 0) : Type 0 where
  pub marshal_map : Wire → Result Bytes
  -- the map is nil for the text `null`
  pub unmarshal_map : Bytes → Result (Option Wire)
  pub marshal_value : V → Result Bytes
  pub unmarshal_value : Bytes → Result (Option V)

-- sessionOptions
pub record SessionOptions (V : Type 0) : Type 0 where
  pub max_steps : ℕ
  pub policy : RunPolicy
  pub codec_registry : Option (StateCodecRegistry V)
  pub strict_state_codecs : Bool

-- A Session, with the fields that hold its state.
pub record StateSession (V : Type 0) : Type 0 where
  pub session : Session
  pub opts : SessionOptions V
  pub binding : SessionBinding
  pub state : StateMap V

-- The text `{}`.
abbrev pub empty_object : Bytes
empty_object = 123 ∷ 125 ∷ []

-- `m[key] = v`
unfoldable pub put_key : {A : Type 0} → List (String × A) → String → A → List (String × A)
put_key [] key a = (key, a) ∷ []
put_key ((k, b) ∷ m) key a = if str_eq k key then (k, a) ∷ m else (k, b) ∷ put_key m key a

abbrev pub about_key : String → String → Text
about_key t key = lit t ∷ quoted key ∷ []

abbrev pub wrapped : String → String → GoError → GoError
wrapped reason key e = to_error (
    new_snapshot_hydration_error (about_key reason key)
      (wrap (lit "toolsy: " ∷ about_key reason key) e))

module _ {V : Type 0} where
  -- SetSessionState of a session that is not nil
  unfoldable pub set_session_state : StateSession V → String → Option V → StateSession V
  unfolding put_key
  set_session_state s key v =
      if str_eq key "" then s else record s { state = put_key s.state key v }

  -- GetSessionState, with resolveTyped's type assertion
  unfoldable pub get_session_state :
      {T : Type 0} → (V → Option T) → StateSession V → String → Option T
  unfolding find_key
  get_session_state assert s key =
      if str_eq key ""
      then none
      else elim (find_key s.state key) [ none ↦ none | some none ↦ none | some (some v) ↦ assert v ]

module _ {V : Type 0} (json : Json V) where
  unfoldable pub encode_state_value : SessionOptions V → String → V → Result Bytes
  unfolding lookup
  encode_state_value o key v = elim (lookup o.codec_registry key) [
    | some entry ↦ entry.encode_value (some v)
    | none ↦
        if o.strict_state_codecs
        then err (to_error (new_state_codec_missing_error key))
        else json.marshal_value v
  ]

  abbrev export_error : String → GoError → GoError
  export_error key e = elim (as_tool_error e) [
    | some te ↦ to_error te
    | none ↦ wrapped "export state key " key e
  ]

  abbrev add_encoded : String → Result Bytes → Result Wire → Result Wire
  add_encoded key (ok raw) rest = rest >>= λ wire. ok ((key, raw) ∷ wire)
  add_encoded key (err e) rest = err (export_error key e)

  -- The loop of encodeStatePayload.
  unfoldable pub encode_entries : SessionOptions V → StateMap V → Result Wire
  unfolding encode_state_value as_tool_error
  encode_entries o [] = ok []
  encode_entries o ((key, none) ∷ m) = encode_entries o m
  encode_entries o ((key, some v) ∷ m) =
      add_encoded key (encode_state_value o key v) (encode_entries o m)

  unfoldable pub encode_state_payload : StateSession V → Result Bytes
  unfolding encode_entries
  encode_state_payload s =
      if is_empty s.state
      then ok empty_object
      else encode_entries s.opts s.state >>= json.marshal_map

  abbrev or_empty_object : Bytes → Bytes
  or_empty_object bs = if is_empty bs then empty_object else bs

  unfoldable pub export_snapshot : StateSession V → Result SessionSnapshot
  unfolding encode_state_payload
  export_snapshot s = do
    payload ← encode_state_payload s
    ok (record {
      version = session_snapshot_version;
      payload = or_empty_object payload;
      binding = s.binding;
    })
