-- ===== src/CallParser/Calls.antt =====
-- callparser.go: the one call that is taken from normalized parts, and its arguments.
use toolsy.Prelude.{
  ℕ, zero, suc, ◌+◌, ◌/◌, ◌%◌, Bool, not, ◌||◌, Option, none, some, List, [], ◌∷◌, ◌++◌, length,
  is_empty, ltb, if◌then◌else◌,
}
use toolsy.Errors.{GoError, lit, to_error, Result, ok, err, ◌>>=◌}
use toolsy.Errors.Decoding.{new_schema_error, new_json_parse_error}
use toolsy.Bytes.{Bytes, bytes, same_bytes, contains_bytes, trim_space}
use toolsy.CallParser.{ContentPart, is_call, find_id, put_id, schema, normalize_tool_call_parts}

-- strconv.Itoa of a number that is not negative, on fuel: a number has no more digits than its value,
-- and one more for 0.
unfoldable pub digits_onto : ℕ → ℕ → Bytes → Bytes
digits_onto zero n out = out
digits_onto (suc fuel) n out =
    let rest = digits_onto fuel (n / 10) ((48 + n % 10) ∷ out) in
    if ltb n 10 then (48 + n) ∷ out else rest

abbrev itoa : ℕ → Bytes
itoa n = digits_onto (n + 1) n []

-- The key of a call in the groups of rejectMultipleToolCalls, at an index.
unfoldable pub group_key : ℕ → ContentPart → Bytes
unfolding trim_space digits_onto
group_key i p =
    let id = trim_space p.tool_call_id in if is_empty id then bytes "no-id-" ++ itoa i else id

abbrev pub add_key : List Bytes → Bytes → List Bytes
add_key groups key = if contains_bytes groups key then groups else key ∷ groups

-- The loop of rejectMultipleToolCalls: the groups and the count of calls without an id.
unfoldable pub count_groups : ℕ → List Bytes → ℕ → List ContentPart → List Bytes × ℕ
unfolding group_key contains_bytes trim_space
count_groups i groups no_id [] = (groups, no_id)
count_groups i groups no_id (p ∷ ps) =
    if not (is_call p)
    then count_groups (i + 1) groups no_id ps
    else count_groups (i + 1) (add_key groups (group_key i p))
        (if is_empty (trim_space p.tool_call_id) then no_id + 1 else no_id) ps

unfoldable pub reject_multiple_tool_calls : List ContentPart → Option GoError
unfolding count_groups
reject_multiple_tool_calls ps =
    let (groups, no_id) = count_groups 0 [] 0 ps in
    if ltb 1 (length groups) || ltb 1 no_id
    then some (to_error (new_schema_error (lit "multiple tool calls found" ∷ [])))
    else none

-- The calls of a tool.
unfoldable pub matches_of : Bytes → List ContentPart → List ContentPart
unfolding same_bytes
matches_of tool_name [] = []
matches_of tool_name (p ∷ ps) =
    let rest = matches_of tool_name ps in
    if not (is_call p) || not (same_bytes p.tool_name tool_name) then rest else p ∷ rest

abbrev pub text_of : Option Bytes → Bytes
text_of none = []
text_of (some bs) = bs

-- `byID[id] = byID[id] + p.Args + p.ArgsChunk`
abbrev pub add_match : List (Bytes × Bytes) → ContentPart → List (Bytes × Bytes)
add_match by_id p =
    let id = trim_space p.tool_call_id in
    put_id by_id id (text_of (find_id by_id id) ++ p.args ++ p.args_chunk)

-- The loop over the matches: the arguments by id, and the calls without an id in order.
unfoldable pub group_matches :
    List (Bytes × Bytes) → List ContentPart → List (Bytes × Bytes) × List ContentPart
unfolding find_id put_id trim_space
group_matches by_id [] = (by_id, [])
group_matches by_id (p ∷ ps) =
    if is_empty (trim_space p.tool_call_id)
    then (let (by_id', no_id) = group_matches by_id ps in (by_id', p ∷ no_id))
    else group_matches (add_match by_id p) ps

abbrev multiple : Bytes → Result Bytes
multiple tool_name = err (schema "multiple tool calls found for tool " tool_name)

-- `unmarshal_raw` is the error of json.Unmarshal into a RawMessage.
module _ (unmarshal_raw : Bytes → Option GoError) where
  unfoldable pub validated_tool_call_args : Bytes → Bytes → Result Bytes
  unfolding trim_space
  validated_tool_call_args tool_name args =
      let trimmed = trim_space args in
      if is_empty trimmed
      then err (schema "tool call arguments are empty for tool " tool_name)
      else elim (unmarshal_raw trimmed) [
        | some e ↦ err (to_error (new_json_parse_error e))
        | none ↦ ok trimmed
      ]

  -- The end of ExtractExactlyOne, for the matches by id and without an id.
  abbrev pub take_one : Bytes → List (Bytes × Bytes) × List ContentPart → Result Bytes
  take_one tool_name ((id, args) ∷ [], []) = validated_tool_call_args tool_name args
  take_one tool_name ((id, args) ∷ [], p ∷ no_id) = multiple tool_name
  take_one tool_name (a ∷ b ∷ by_id, no_id) = multiple tool_name
  take_one tool_name ([], []) = multiple tool_name
  take_one tool_name ([], p ∷ []) =
      validated_tool_call_args tool_name (trim_space (p.args ++ p.args_chunk))
  take_one tool_name ([], p ∷ q ∷ no_id) = multiple tool_name

  abbrev pub extract_match : Bytes → List ContentPart → Result Bytes
  extract_match tool_name [] = err (schema "no tool call found for tool " tool_name)
  extract_match tool_name (p ∷ ps) = take_one tool_name (group_matches [] (p ∷ ps))

  abbrev pub extract_normalized : Bytes → List ContentPart → Result Bytes
  extract_normalized tool_name ps = elim (reject_multiple_tool_calls ps) [
    | some e ↦ err e
    | none ↦ extract_match tool_name (matches_of tool_name ps)
  ]

module _ (json_valid : Bytes → Bool) (unmarshal_raw : Bytes → Option GoError) where
  -- StandardCallParser.ExtractExactlyOne
  unfoldable pub extract_exactly_one : List ContentPart → Bytes → Result Bytes
  unfolding normalize_tool_call_parts reject_multiple_tool_calls matches_of group_matches
      validated_tool_call_args
  extract_exactly_one parts tool_name = do
    ps ← normalize_tool_call_parts json_valid parts
    extract_normalized unmarshal_raw tool_name ps
