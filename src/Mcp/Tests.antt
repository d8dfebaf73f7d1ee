-- ===== src/Mcp/Tests.antt =====
-- A tool call of a server that answers once, and a list in two pages.
use toolsy.Prelude.{
  ℕ, String, true, false, Option, none, some, List, [], ◌∷◌, ◌≡◌, refl, str_eq, arith,
  if◌then◌else◌,
}
use toolsy.Errors.{GoError, Result, ok}
use toolsy.Bytes.{Bytes, bytes}
use toolsy.Chunk.{Chunk}
use toolsy.Mcp.{Contents, ContentItem, format_content_items}
use toolsy.Mcp.Call.{
  CallState, CallResult, ProgressParams, progress_chunk_of, new_call, Step, Reach,
  handle_tool_call_result, after_progress,
}
use toolsy.Mcp.Delivery.{keeping, Steps, sent, IsDelivered, Reach-IsDelivered}
use toolsy.Mcp.Cursor.{Page, Handed, item, Pages, iterate_cursor, yield_items, iterate_cursor-Pages}
use toolsy.Mcp.Cursor
use toolsy.Samples.{codec}

abbrev text_item : ContentItem
text_item = record { item_type = "text"; text = bytes "done"; base64 = []; media_type = [] }

abbrev image_item : ContentItem
image_item = record { item_type = "image"; text = []; base64 = bytes "QQ"; media_type = [] }

abbrev contents : Contents
contents = record { content = some (text_item ∷ []); contents = none; is_error = false }

formats :
    format_content_items (text_item ∷ image_item ∷ [])
    ≡ bytes "done\n![image](data:image/png;base64,QQ)"
unfolding format_content_items
formats = refl

abbrev parse : Bytes → Result Contents
parse bs = ok contents

abbrev accepting : List Chunk → Chunk → Option GoError
accepting seen c = none

abbrev half : ProgressParams
half = record {
  progress_token = "t";
  progress = 50;
  below_zero = false;
  total = 0;
  total_positive = false;
  progress_message = "";
}

abbrev response : CallResult
response = record { outcome = ok (bytes "{}"); request_id = "1" }

abbrev forwarded : CallState (List Chunk)
forwarded = record (new_call []) { progress_ch = progress_chunk_of half ∷ [] }

abbrev taken : CallState (List Chunk)
taken =
    after_progress (record forwarded { progress_ch = [] })
      (keeping codec 100 parse accepting [] (progress_chunk_of half))

abbrev responded : CallState (List Chunk)
responded = record taken { result_ch = some response; responded = true }

abbrev finished : CallState (List Chunk)
finished =
    handle_tool_call_result codec 100 parse (keeping codec 100 parse accepting)
      (record responded { result_ch = none }) response

abbrev run : Steps codec 100 parse accepting (new_call []) finished
run =
    Reach.next
      (Reach.next
        (Reach.next (Reach.next Reach.here (Step.forward half refl (omega arith)))
          (Step.select_progress (progress_chunk_of half) [] refl refl))
        (Step.respond response refl))
      (Step.select_result response refl refl)

Reach-IsDelivered_example :
    IsDelivered codec 100 parse accepting (sent codec 100 parse accepting run) finished
Reach-IsDelivered_example = Reach-IsDelivered codec 100 parse accepting run

abbrev two_pages : ℕ → String → ℕ × Result (Page ℕ)
two_pages t cursor =
    if str_eq cursor ""
    then (1, ok (record { items = 10 ∷ 11 ∷ []; next_cursor = "b" }))
    else (2, ok (record { items = 12 ∷ []; next_cursor = "" }))

abbrev first_page : Page ℕ
first_page = record { items = 10 ∷ 11 ∷ []; next_cursor = "b" }

abbrev second_page : Page ℕ
second_page = record { items = 12 ∷ []; next_cursor = "" }

iterate_cursor-Pages_example :
    iterate_cursor two_pages (Cursor.keeping two_pages) 3 "" 0 []
    ≡ ((2, item 10 ∷ item 11 ∷ item 12 ∷ []), true)
iterate_cursor-Pages_example =
    iterate_cursor-Pages two_pages []
      (Pages.more first_page refl refl (Pages.last {n = 1} second_page refl refl))
