-- ===== src/Errors/Decoding.antt =====
-- errors.go: the errors of what is decoded, that is schemas, JSON and snapshots of session state.
use toolsy.Prelude.{String, none, false, [], ◌∷◌}
use toolsy.Errors.Kinds.{
  GoError, Text, lit, quoted, message, ToolError, code_schema_invalid, code_internal,
  code_state_codec_missing,
}
use toolsy.Errors.{plain_error}

abbrev pub new_schema_error : Text → ToolError
new_schema_error r = record {
  info = record {
    code = code_schema_invalid;
    retryable = false;
    reason = r;
    fixable_args = [];
    safe_message = [];
  };
  err = none;
}

-- of an error that is not nil
abbrev pub new_json_parse_error : GoError → ToolError
new_json_parse_error e = plain_error code_schema_invalid (lit "invalid JSON" ∷ []) [] e

abbrev pub new_state_codec_missing_error : String → ToolError
new_state_codec_missing_error key =
    let r : Text = lit "no state codec registered for key " ∷ quoted key ∷ [] in
    plain_error code_state_codec_missing r (key ∷ []) (message r)

-- of a reason that is not blank, and an error that is not nil
abbrev pub new_snapshot_hydration_error : Text → GoError → ToolError
new_snapshot_hydration_error r e = plain_error code_internal r [] e
