-- ===== src/Mcp/Delivery.antt =====
-- mcp/client.go (runMCPToolCall): what a call hands its consumer, under every order of its steps.
use mathlib.Core.List.{append_assoc}
use toolsy.Prelude.{
  ℕ, ◌≤◌, String, Option, none, some, List, [], ◌∷◌, ◌++◌, ◌≡◌, ◌⊎◌, inl, inr, refl, sym, ◌∙◌, ap,
  arith, length, length-append,
}
use toolsy.Errors.{GoError, Result, Result-cases}
use toolsy.Bytes.{Bytes}
use toolsy.Chunk.{Codec, Chunk}
use toolsy.Mcp.{Contents}
use toolsy.Mcp.Call.{
  CallResult, CallState, progress_chunk_of, progress_chunk_buffer_size, notify_cancelled_request,
  request_id_if_ready, abort, result_chunk, handle_tool_call_result, offered, after_progress, Step,
  Reach, new_call,
}

module _ (codec : Codec) (max_stream_bytes : ℕ) (parse : Bytes → Result Contents)
    (answer : List Chunk → Chunk → Option GoError) where
  -- A consumer that keeps the chunks it is handed, in their order.
  abbrev pub keeping : List Chunk → Chunk → List Chunk × Option GoError
  keeping seen c = (seen ++ c ∷ [], answer seen c)

  abbrev State : Type 0
  State = CallState (List Chunk)

  abbrev pub Steps : State → State → Type 0
  Steps start st = Reach codec max_stream_bytes parse keeping start st

  -- The progress chunks that were forwarded, in their order.
  abbrev pub sent : {start st : State} → Steps start st → List Chunk
  sent Reach.here = []
  sent (Reach.next r (Step.forward p h k)) = sent r ++ progress_chunk_of p ∷ []
  sent (Reach.next r (Step.respond a h)) = sent r
  sent (Reach.next r (Step.interrupt e h)) = sent r
  sent (Reach.next r (Step.select_done e h k)) = sent r
  sent (Reach.next r (Step.select_result a h k)) = sent r
  sent (Reach.next r (Step.select_progress c cs h k)) = sent r

  -- The chunks are the first ones of those that were forwarded.
  abbrev pub IsFirst : List Chunk → List Chunk → Type 0
  IsFirst forwarded cs = (rest : List Chunk) × (cs ++ rest ≡ forwarded)

  -- The chunks are the first of those forwarded, and the chunk of a result after them.
  abbrev pub IsClosed : List Chunk → List Chunk → Type 0
  IsClosed forwarded cs =
      (first : List Chunk) × IsFirst forwarded first
      × ((res : Bytes) × (cs ≡ first ++ result_chunk codec parse res ∷ []))

  abbrev pub IsHanded :
      List Chunk → List Chunk → List Chunk → List String → Option (Option GoError) → Type 0
  IsHanded forwarded waiting cs cancels none = (cs ++ waiting ≡ forwarded) × (cancels ≡ [])
  IsHanded forwarded waiting cs cancels (some none) = IsClosed forwarded cs × (cancels ≡ [])
  IsHanded forwarded waiting cs cancels (some (some e)) =
      (IsFirst forwarded cs ⊎ IsClosed forwarded cs) × (length cancels ≤ 1)

  abbrev pub IsDelivered : List Chunk → State → Type 0
  IsDelivered forwarded st =
      (length st.progress_ch ≤ progress_chunk_buffer_size)
      × IsHanded forwarded st.progress_ch st.consumer st.cancels st.returned

  one_notification : (id : String) → length (notify_cancelled_request id []) ≤ 1
  one_notification id = ground arith

  abort-IsDelivered :
      (forwarded : List Chunk) (st : State)
      → length st.progress_ch ≤ progress_chunk_buffer_size
      → st.consumer ++ st.progress_ch ≡ forwarded
      → st.cancels ≡ []
      → IsDelivered forwarded (abort st)
  unfolding abort
  abort-IsDelivered forwarded st n h k =
      (n, (inl (st.progress_ch, h), rw k (one_notification (request_id_if_ready st.result_ch))))

  handed-IsDelivered :
      (forwarded : List Chunk) (st : State) (id : String) (res : Bytes) (a : Option GoError)
      → length st.progress_ch ≤ progress_chunk_buffer_size
      → st.consumer ++ st.progress_ch ≡ forwarded
      → st.cancels ≡ []
      → IsDelivered forwarded (offered st id (st.consumer ++ result_chunk codec parse res ∷ [], a))
  handed-IsDelivered forwarded st id res none n h k =
      (n, ((st.consumer, (st.progress_ch, h), (res, refl)), k))
  handed-IsDelivered forwarded st id res (some e) n h k =
      (n, (inr (st.consumer, (st.progress_ch, h), (res, refl)), rw k (one_notification id)))

  result-IsDelivered :
      (forwarded : List Chunk) (st : State) (r : CallResult)
      → length st.progress_ch ≤ progress_chunk_buffer_size
      → st.consumer ++ st.progress_ch ≡ forwarded
      → st.cancels ≡ []
      → IsDelivered forwarded (handle_tool_call_result codec max_stream_bytes parse keeping st r)
  unfolding handle_tool_call_result
  result-IsDelivered forwarded st r n h k = elim (Result-cases r.outcome) [
    | inr (e, f) ↦ rw f (n, (inl (st.progress_ch, h), rw k (omega arith)))
    | inl (res, f) ↦ rw f (
        handed-IsDelivered forwarded st r.request_id res
          (answer st.consumer (result_chunk codec parse res)) n h k)
  ]

  progress-IsDelivered :
      (forwarded : List Chunk) (st : State) (c : Chunk) (a : Option GoError)
      → st.returned ≡ none
      → length st.progress_ch ≤ progress_chunk_buffer_size
      → (st.consumer ++ c ∷ []) ++ st.progress_ch ≡ forwarded
      → st.cancels ≡ []
      → IsDelivered forwarded (after_progress st (st.consumer ++ c ∷ [], a))
  progress-IsDelivered forwarded st c none open_ n h k = (n, rw open_ (h, k))
  progress-IsDelivered forwarded st c (some e) open_ n h k =
      abort-IsDelivered forwarded (record st { consumer = st.consumer ++ c ∷ [] }) n h k

  Step-IsDelivered :
      {start st after : State} (r : Steps start st)
      (step : Step codec max_stream_bytes parse keeping st after)
      → IsDelivered (sent r) st
      → IsDelivered (sent (Reach.next r step)) after
  Step-IsDelivered {st = st} r (Step.forward p h k) (n, d) =
      let (same, quiet) : (st.consumer ++ st.progress_ch ≡ sent r) × (st.cancels ≡ []) =
        rw h at d in
      (
        omega (arith, k, length-append st.progress_ch (progress_chunk_of p ∷ [])),
        rw h (
          sym (append_assoc st.consumer st.progress_ch (progress_chunk_of p ∷ []))
              ∙ ap (λ cs. cs ++ progress_chunk_of p ∷ []) same,
          quiet,
        ),
      )
  Step-IsDelivered r (Step.respond a h) d = d
  Step-IsDelivered r (Step.interrupt e h) d = d
  Step-IsDelivered {st = st} r (Step.select_done e h k) (n, d) =
      let (same, quiet) : (st.consumer ++ st.progress_ch ≡ sent r) × (st.cancels ≡ []) =
        rw h at d in
      abort-IsDelivered (sent r) st n same quiet
  Step-IsDelivered {st = st} r (Step.select_result a h k) (n, d) =
      let (same, quiet) : (st.consumer ++ st.progress_ch ≡ sent r) × (st.cancels ≡ []) =
        rw h at d in
      result-IsDelivered (sent r) (record st { result_ch = none }) a n same quiet
  Step-IsDelivered {st = st} r (Step.select_progress c cs h k) (n, d) =
      let (same, quiet) : (st.consumer ++ st.progress_ch ≡ sent r) × (st.cancels ≡ []) =
        rw h at d in
      progress-IsDelivered (sent r) (record st { progress_ch = cs }) c (answer st.consumer c) h
        (omega (arith, n, ap length k)) (append_assoc st.consumer (c ∷ []) cs ∙ rw k at same) quiet

  -- Whatever the order in which a server's notifications, its response, the end of the context and the
  -- client's loop take their steps: no more than eight progress chunks wait; while a call runs, the
  -- consumer was handed the progress that was forwarded, in its order and without a gap, up to what
  -- waits, and no cancellation was sent; a call that returned without an error has handed over a part
  -- of the progress from its beginning and then the chunk of a result; and one that returned an error has
  -- handed over no more than that, and sent at most one cancellation.
  pub Reach-IsDelivered : {st : State} (r : Steps (new_call []) st) → IsDelivered (sent r) st
  Reach-IsDelivered Reach.here = (omega arith, (refl, refl))
  Reach-IsDelivered (Reach.next r step) = Step-IsDelivered r step (Reach-IsDelivered r)
