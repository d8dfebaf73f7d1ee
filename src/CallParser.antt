-- ===== src/CallParser.antt =====
-- callparser.go: the arguments of the one tool call that the parts of a model's response make up.
--
-- Texts are bytes. A map from call ids is a list of entries, one for each id. What encoding/json says
-- of a text is a parameter.
pub mod Calls
pub mod Matches
pub mod Groups
pub mod Extraction
mod Tests
use toolsy.Prelude.{
  ℕ, zero, suc, ◌+◌, ◌-◌, ◌/◌, ◌%◌, String, Bool, true, false, not, ◌&&◌, ◌||◌, Option, none, some,
  List, [], ◌∷◌, ◌++◌, length, is_empty, ltb, leb, ◌==◌, str_eq, if◌then◌else◌,
}
use toolsy.Errors.{GoError, Text, lit, spelled, message, wrap, to_error, Result, ok, err, ◌>>=◌}
use toolsy.Errors.Decoding.{new_schema_error, new_json_parse_error}
use toolsy.Bytes.{Bytes, bytes, same_bytes, contains_bytes, trim_space}

pub record ContentPart : Type 0 where
  pub part_type : String
  pub text : Bytes
  pub tool_call_id : Bytes
  pub tool_name : Bytes
  pub args : Bytes
  pub args_chunk : Bytes

abbrev pub is_call : ContentPart → Bool
is_call p = str_eq p.part_type "tool_call"

unfoldable pub find_id : {A : Type 0} → List (Bytes × A) → Bytes → Option A
unfolding same_bytes
find_id [] id = none
find_id ((k, a) ∷ m) id = if same_bytes k id then some a else find_id m id

unfoldable pub put_id : {A : Type 0} → List (Bytes × A) → Bytes → A → List (Bytes × A)
unfolding same_bytes
put_id [] id a = (id, a) ∷ []
put_id ((k, b) ∷ m) id a = if same_bytes k id then (k, a) ∷ m else (k, b) ∷ put_id m id a

abbrev pub schema : String → Bytes → GoError
schema t about = to_error (new_schema_error (lit t ∷ spelled about ∷ []))

-- The body of the first loop of NormalizeToolCallParts.
abbrev name_found :
    List (Bytes × Bytes) → Bytes → Bytes → Option Bytes → Result (List (Bytes × Bytes))
name_found names id name none = ok ((id, name) ∷ names)
name_found names id name (some existing) =
    if same_bytes existing name
    then ok names
    else err (schema "conflicting tool names for tool call " id)

unfoldable pub add_name : List (Bytes × Bytes) → ContentPart → Result (List (Bytes × Bytes))
unfolding find_id trim_space same_bytes
add_name names p =
    let id = trim_space p.tool_call_id in
    let name = trim_space p.tool_name in
    if not (is_call p) || is_empty id || is_empty name
    then ok names
    else name_found names id name (find_id names id)

unfoldable pub names_by_id : List (Bytes × Bytes) → List ContentPart → Result (List (Bytes × Bytes))
unfolding add_name
names_by_id names [] = ok names
names_by_id names (p ∷ ps) = do names' ← add_name names p; names_by_id names' ps

-- The body of the last loop: a call without a name gets that of its id.
unfoldable pub fill_name : List (Bytes × Bytes) → ContentPart → ContentPart
unfolding find_id trim_space
fill_name names p =
    if not (is_call p) || not (is_empty (trim_space p.tool_name))
    then p
    else elim (find_id names (trim_space p.tool_call_id)) [
      | none ↦ p
      | some name ↦ if is_empty name then p else record p { tool_name = name }
    ]

unfoldable pub fill_names : List (Bytes × Bytes) → List ContentPart → List ContentPart
unfolding fill_name
fill_names names [] = []
fill_names names (p ∷ ps) = fill_name names p ∷ fill_names names ps

pub record CallState : Type 0 where
  pub args : Bytes
  pub complete : Bool

abbrev pub state_of : Option CallState → CallState
state_of none = record { args = []; complete = false }
state_of (some s) = s

-- `json_valid` is json.Valid.
module _ (json_valid : Bytes → Bool) where
  -- The body of the loop of rejectDuplicateCompleteToolCalls, for the trimmed arguments of a call.
  abbrev add_args :
      List (Bytes × CallState) → Bytes → Bytes → CallState → Result (List (Bytes × CallState))
  add_args states id args s =
      let joined = s.args ++ args in
      if s.complete
      then err (schema "duplicate complete tool call " id)
      else ok
          (put_id states id (record { args = joined; complete = json_valid (trim_space joined) }))

  unfoldable pub add_call_state :
      List (Bytes × CallState) → ContentPart → Result (List (Bytes × CallState))
  unfolding find_id put_id trim_space
  add_call_state states p =
      let id = trim_space p.tool_call_id in
      let args = trim_space (p.args ++ p.args_chunk) in
      if not (is_call p) || is_empty id || is_empty args
      then ok states
      else add_args states id args (state_of (find_id states id))

  unfoldable pub reject_duplicate_complete_tool_calls :
      List (Bytes × CallState) → List ContentPart → Result (List (Bytes × CallState))
  unfolding add_call_state
  reject_duplicate_complete_tool_calls states [] = ok states
  reject_duplicate_complete_tool_calls states (p ∷ ps) = do
    states' ← add_call_state states p
    reject_duplicate_complete_tool_calls states' ps

  unfoldable pub normalize_tool_call_parts : List ContentPart → Result (List ContentPart)
  unfolding names_by_id reject_duplicate_complete_tool_calls fill_names
  normalize_tool_call_parts ps = do
    names ← names_by_id [] ps
    states ← reject_duplicate_complete_tool_calls [] ps
    ok (fill_names names ps)
