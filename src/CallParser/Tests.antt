-- ===== src/CallParser/Tests.antt =====
-- Calls that come in parts, in one piece, and too often.
use toolsy.Prelude.{
  String, Bool, false, Option, none, some, List, [], ◌∷◌, ◌≡◌, ◌≢◌, refl, All, ◌==◌, if◌then◌else◌,
}
use toolsy.Errors.{GoError, lit, message, to_error, ok, err}
use toolsy.Errors.Decoding.{new_schema_error}
use toolsy.Bytes.{
  Bytes, bytes, same_bytes, contains_bytes, trim_space, trim_ahead, trim_behind, space_ahead,
  space_behind,
}
use toolsy.CallParser.{
  ContentPart, find_id, put_id, add_name, names_by_id, fill_name, fill_names, add_call_state,
  reject_duplicate_complete_tool_calls, normalize_tool_call_parts,
}
use toolsy.CallParser.Calls.{
  digits_onto, group_key, count_groups, reject_multiple_tool_calls, matches_of, group_matches,
  validated_tool_call_args, extract_exactly_one,
}
use toolsy.CallParser.Groups.{call_keys}
use toolsy.CallParser.Extraction.{IsOneCall, IsJson, extract_exactly_one-IsOneCall}

-- A text counts as JSON if it ends with a brace.
abbrev ends_with_brace : Bytes → Bool
ends_with_brace [] = false
ends_with_brace (c ∷ []) = c == 125
ends_with_brace (c ∷ d ∷ cs) = ends_with_brace (d ∷ cs)

abbrev syntax_error : Bytes → Option GoError
syntax_error bs = if ends_with_brace bs then none else some (message (lit "unexpected end" ∷ []))

abbrev part : String → String → String → String → ContentPart
part id name args chunk = record {
  part_type = "tool_call";
  text = [];
  tool_call_id = bytes id;
  tool_name = bytes name;
  args = bytes args;
  args_chunk = bytes chunk;
}

-- The second part of the call has no name, and gets it from the first.
abbrev in_parts : List ContentPart
in_parts = part "c1" "echo" "{" "" ∷ part " c1 " "" "" "} " ∷ []

extracts :
    extract_exactly_one ends_with_brace syntax_error in_parts (bytes "echo") ≡ ok (bytes "{}")
unfolding extract_exactly_one normalize_tool_call_parts names_by_id add_name find_id put_id
    fill_names fill_name reject_duplicate_complete_tool_calls add_call_state
    reject_multiple_tool_calls count_groups group_key digits_onto matches_of group_matches
    validated_tool_call_args same_bytes contains_bytes trim_space trim_ahead trim_behind space_ahead
    space_behind
extracts = refl

rejects :
    extract_exactly_one ends_with_brace syntax_error
      (part "" "echo" "{}" "" ∷ part "" "echo" "{}" "" ∷ [])
      (bytes "echo")
    ≡ err (to_error (new_schema_error (lit "multiple tool calls found" ∷ [])))
unfolding extract_exactly_one normalize_tool_call_parts names_by_id add_name find_id put_id
    fill_names fill_name reject_duplicate_complete_tool_calls add_call_state
    reject_multiple_tool_calls count_groups group_key digits_onto matches_of group_matches
    validated_tool_call_args same_bytes contains_bytes trim_space trim_ahead trim_behind space_ahead
    space_behind
rejects = refl

-- Two calls, of two tools, pass for one if the id of the first is the key of the second in the groups.
collides :
    extract_exactly_one ends_with_brace syntax_error
      (part "no-id-1" "echo" "{}" "" ∷ part "" "grep" "{}" "" ∷ [])
      (bytes "echo")
    ≡ ok (bytes "{}")
unfolding extract_exactly_one normalize_tool_call_parts names_by_id add_name find_id put_id
    fill_names fill_name reject_duplicate_complete_tool_calls add_call_state
    reject_multiple_tool_calls count_groups group_key digits_onto matches_of group_matches
    validated_tool_call_args same_bytes contains_bytes trim_space trim_ahead trim_behind space_ahead
    space_behind
collides = refl

extract_exactly_one-IsOneCall_example :
    (ps : List ContentPart) × (normalize_tool_call_parts ends_with_brace in_parts ≡ ok ps)
    × (matches_of (bytes "echo") ps ≢ [])
    × IsOneCall (matches_of (bytes "echo") ps) (bytes "{}")
    × IsJson syntax_error (bytes "{}")
    × (k : Bytes) × All (λ key. key ≡ k) (call_keys 0 ps)
extract_exactly_one-IsOneCall_example =
    extract_exactly_one-IsOneCall syntax_error ends_with_brace in_parts (bytes "echo") (bytes "{}")
      extracts
