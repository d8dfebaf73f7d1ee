-- ===== src/Mcp.antt =====
-- mcp: the client that runs the tools of a server, with the transport as a parameter.
--
-- This file: mcp/content.go (the text of a result), mcp/policy.go and the results that mcp/client.go hands
-- on. Texts are bytes.
pub mod Call
pub mod Delivery
pub mod Cursor
mod Tests
use toolsy.Prelude.{
  ℕ, String, Bool, true, false, not, ◌&&◌, ◌||◌, Option, none, some, List, [], ◌∷◌, ◌++◌, is_empty,
  ltb, str_eq, if◌then◌else◌,
}
use toolsy.Errors.{
  GoError, Text, lit, amount, spelled, sentinel, stream_aborted, read_limit_exceeded, is,
  is_context_interrupt, to_error, new_validation_error, Result, ok, err,
}
use toolsy.Bytes.{Bytes, bytes}
use toolsy.Chunk.{Codec, Chunk, empty_chunk, result, raw, mime_text}
use toolsy.Chunk.Wire.{new_error_chunk_from_err}

pub record ContentItem : Type 0 where
  pub item_type : String
  pub text : Bytes
  pub base64 : Bytes
  pub media_type : Bytes

-- What json.Unmarshal finds in a result; a missing list is nil.
pub record Contents : Type 0 where
  pub content : Option (List ContentItem)
  pub contents : Option (List ContentItem)
  pub is_error : Bool

pub record FormatContentResult : Type 0 where
  pub bytes_of : Bytes
  pub is_error : Bool

abbrev format_item : ContentItem → Bytes
format_item item =
    if str_eq item.item_type "text"
    then item.text
    else if str_eq item.item_type "image"
    then bytes "![image](data:"
      ++ (if is_empty item.media_type then bytes "image/png" else item.media_type)
      ++ bytes ";base64,"
      ++ item.base64
      ++ bytes ")"
    else item.text

abbrev format_rest : List ContentItem → Bytes
format_rest [] = []
format_rest (item ∷ items) = (10 ∷ format_item item) ++ format_rest items

-- formatContentItems: the items' texts, with a line break before each but the first
unfoldable pub format_content_items : List ContentItem → Bytes
format_content_items [] = []
format_content_items (item ∷ items) = format_item item ++ format_rest items

abbrev items_of : Contents → List ContentItem
items_of c = elim c.content [
  | some items ↦ items
  | none ↦ elim c.contents [ some items ↦ items | none ↦ [] ]
]

abbrev failure_text : Bytes → Bytes
failure_text out = if is_empty out then bytes "Tool error" else bytes "Tool error: " ++ out

-- FormatContent, on what json.Unmarshal finds
unfoldable pub format_content : Result Contents → Result FormatContentResult
unfolding format_content_items
format_content (err e) = err e
format_content (ok c) =
    let out = format_content_items (items_of c) in
    ok (record { bytes_of = if c.is_error then failure_text out else out; is_error = c.is_error })

-- ToolAnnotations, and the tool options that they give: read only, dangerous, idempotent
pub record ToolAnnotations : Type 0 where
  pub read_only_hint : Option Bool
  pub destructive_hint : Option Bool
  pub idempotent_hint : Option Bool

pub record PolicyOptions : Type 0 where
  pub read_only : Bool
  pub dangerous : Bool
  pub idempotent : Bool

abbrev hinted : Option Bool → Bool
hinted none = false
hinted (some b) = b

unfoldable pub mcp_tool_policy_options : Option ToolAnnotations → PolicyOptions
mcp_tool_policy_options none = record { read_only = false; dangerous = false; idempotent = false }
mcp_tool_policy_options (some a) = record {
  read_only = hinted a.read_only_hint;
  dangerous = hinted a.destructive_hint;
  idempotent = hinted a.idempotent_hint;
}

-- mcpResultChunk
unfoldable pub mcp_result_chunk : Codec → Bytes → Bool → Chunk
mcp_result_chunk codec bs true =
    new_error_chunk_from_err codec (to_error (new_validation_error (spelled bs ∷ []) []))
mcp_result_chunk codec bs false = record empty_chunk {
  event = result;
  payload = raw bs;
  mime_type = mime_text;
}

-- MapReadLimitErrorFor, for an error that is a read limit's, a subject and no hint; a limit that is not
-- positive was looked up in the error.
abbrev pub map_read_limit_error_for : ℕ → String → GoError
map_read_limit_error_for max_bytes subject = to_error (
    new_validation_error
      (if ltb 0 max_bytes
        then lit subject ∷ lit " exceeds " ∷ amount max_bytes ∷ lit " byte limit" ∷ []
        else lit subject ∷ lit " exceeds byte limit" ∷ [])
      [])

-- mapCallReadLimitFor of an error, where `interrupted` is `ctx.Err()`
unfoldable pub map_call_read_limit_for : ℕ → Option GoError → GoError → String → GoError
map_call_read_limit_for max_stream_bytes interrupted e subject = elim interrupted [
  | some f ↦ f
  | none ↦
      if is_context_interrupt e
      then e
      else if is e read_limit_exceeded
      then map_read_limit_error_for max_stream_bytes subject
      else e
]
