-- ===== src/Mcp/Call.antt =====
-- mcp/client.go (runMCPToolCall, handleToolCallResult, newToolProgressForwarder): one tool call, as a
-- relation of steps.
--
-- The goroutine of the request, the server's notifications and the loop run side by side. A step is one
-- of them, and the `select` of the loop takes any of its branches that is ready. A channel is the list of
-- what is in it; the request is answered once, and the progress channel is never closed. The caller's
-- context ends at some step, and `interrupted` is then its error.
use toolsy.Prelude.{
  ℕ, ◌<◌, String, Bool, true, false, not, Option, none, some, List, [], ◌∷◌, ◌++◌, ◌≡◌, length,
  str_eq, if◌then◌else◌,
}
use toolsy.Errors.{GoError, sentinel, stream_aborted, Result, ok, err}
use toolsy.Bytes.{Bytes}
use toolsy.Chunk.{Codec, Chunk, ProgressInfo, empty_chunk, progress}
use toolsy.Mcp.{Contents, format_content, mcp_result_chunk, map_call_read_limit_for}

abbrev pub progress_chunk_buffer_size : ℕ
progress_chunk_buffer_size = 8

-- callResultWithErr: the bytes of a result or an error, and the id of the request.
pub record CallResult : Type 0 where
  pub outcome : Result Bytes
  pub request_id : String

-- A call that goes on or that has returned. `cancels` are the notifications of a cancelled request.
pub record CallState (S : Type 0) : Type 0 where
  pub progress_ch : List Chunk
  pub result_ch : Option CallResult
  pub responded : Bool
  pub interrupted : Option GoError
  pub consumer : S
  pub cancels : List String
  pub returned : Option (Option GoError)

-- ProgressParams; numbers that the server leaves out are 0, and `below_zero` marks a negative progress.
pub record ProgressParams : Type 0 where
  pub progress_token : String
  pub progress : ℕ
  pub below_zero : Bool
  pub total : ℕ
  pub total_positive : Bool
  pub progress_message : String

abbrev with_total : ProgressParams → ProgressInfo → ProgressInfo
with_total p i = record i {
  total = if p.total_positive then some p.total else none;
  message = p.progress_message;
}

abbrev no_progress : ProgressInfo
no_progress = record {
  percent = none;
  total = none;
  message = "";
  label = "";
  status = "";
  token = "";
}

-- The chunk that newToolProgressForwarder makes of a notification.
unfoldable pub progress_chunk_of : ProgressParams → Chunk
progress_chunk_of p = record empty_chunk {
  event = progress;
  progress_info =
      if not p.below_zero
      then some (
          with_total p (record no_progress { percent = some p.progress; token = p.progress_token }))
      else if not (str_eq p.progress_token "")
      then some (with_total p (record no_progress { token = p.progress_token }))
      else none;
}

-- notifyCancelledRequest, which sends nothing without an id
abbrev pub notify_cancelled_request : String → List String → List String
notify_cancelled_request id cancels = if str_eq id "" then cancels else cancels ++ id ∷ []

abbrev pub request_id_if_ready : Option CallResult → String
request_id_if_ready none = ""
request_id_if_ready (some r) = r.request_id

module _ {S : Type 0} where
  abbrev pub ends : CallState S → Option GoError → CallState S
  ends st e = record st { returned = some e }

  -- The end of a call whose context or consumer stopped it; the result is taken off its channel.
  unfoldable pub abort : CallState S → CallState S
  abort st = record st {
    result_ch = none;
    cancels = notify_cancelled_request (request_id_if_ready st.result_ch) st.cancels;
    returned = some (some (sentinel stream_aborted));
  }

  abbrev pub offered : CallState S → String → S × Option GoError → CallState S
  offered st id (s, none) = record st { consumer = s; returned = some none }
  offered st id (s, some e) = record st {
    consumer = s;
    cancels = notify_cancelled_request id st.cancels;
    returned = some (some (sentinel stream_aborted));
  }

  abbrev pub after_progress : CallState S → S × Option GoError → CallState S
  after_progress st (s, none) = record st { consumer = s }
  after_progress st (s, some e) = abort (record st { consumer = s })

  abbrev pub new_call : S → CallState S
  new_call s = record {
    progress_ch = [];
    result_ch = none;
    responded = false;
    interrupted = none;
    consumer = s;
    cancels = [];
    returned = none;
  }

module _ (codec : Codec) (parse : Bytes → Result Contents) where
  -- The chunk of a result: its formatted content, or its bytes where it cannot be read.
  unfoldable pub result_chunk : Bytes → Chunk
  unfolding format_content mcp_result_chunk
  result_chunk res = elim (format_content (parse res)) [
    | ok mapped ↦ mcp_result_chunk codec mapped.bytes_of mapped.is_error
    | err e ↦ mcp_result_chunk codec res false
  ]

module _ {S : Type 0} (codec : Codec) (max_stream_bytes : ℕ) (parse : Bytes → Result Contents)
    (yield : S → Chunk → S × Option GoError) where
  unfoldable pub handle_tool_call_result : CallState S → CallResult → CallState S
  unfolding result_chunk map_call_read_limit_for
  handle_tool_call_result st r = elim r.outcome [
    | err e ↦
        ends st
          (some (map_call_read_limit_for max_stream_bytes st.interrupted e "MCP tool response"))
    | ok res ↦ offered st r.request_id (yield st.consumer (result_chunk codec parse res))
  ]

  -- A step of the call. The forwarder waits while the channel is full, and sends nothing after the end.
  pub data Step (st : CallState S) : CallState S → Type 0 where
    forward :
        (p : ProgressParams)
        → st.returned ≡ none
        → length st.progress_ch < progress_chunk_buffer_size
        → Step st (record st { progress_ch = st.progress_ch ++ progress_chunk_of p ∷ [] })
    respond :
        (r : CallResult)
        → st.responded ≡ false
        → Step st (record st { result_ch = some r; responded = true })
    interrupt : (e : GoError) → st.interrupted ≡ none → Step st (record st { interrupted = some e })
    select_done : (e : GoError) → st.returned ≡ none → st.interrupted ≡ some e → Step st (abort st)
    select_result :
        (r : CallResult)
        → st.returned ≡ none
        → st.result_ch ≡ some r
        → Step st (handle_tool_call_result (record st { result_ch = none }) r)
    select_progress :
        (c : Chunk) (cs : List Chunk)
        → st.returned ≡ none
        → st.progress_ch ≡ c ∷ cs
        → Step st (after_progress (record st { progress_ch = cs }) (yield st.consumer c))

  -- The states that a call reaches.
  pub data Reach (start : CallState S) : CallState S → Type 0 where
    here : Reach start start
    next : {st after : CallState S} → Reach start st → Step st after → Reach start after
