-- ===== src/Registry/Offers.antt =====
-- registry.go (wrapYieldWithCallMeta, accountDeliveredChunk): what becomes of one chunk that a tool hands
-- to the yield of its call.
use toolsy.Prelude.{
  ℕ, suc, ◌+◌, ◌≡◌, refl, ◌⊎◌, ◌∙◌, inl, inr, sym, subst, String, false, Option, none, some, List,
  [], ◌∷◌, arith, if◌then◌else◌, Option-cases, str_eq, str_eq_iff, All,
}
use toolsy.Errors.{GoError, Result, ok, err, Result-cases}
use toolsy.Chunk.{Codec, Chunk, payload_len}
use toolsy.Chunk.Prepare.{prepare_chunk}
use toolsy.Chunk.Contract.{IsDeliverable, prepare_chunk-IsDeliverable, prepare_chunk_fields}
use toolsy.Registry.{Registry}
use toolsy.Registry.Execute.{
  Host, ToolCall, Progress, account_delivered_chunk, with_call_meta, wrap_yield_with_call_meta,
  ExecutionSummary, offer, taken,
}

abbrev pub recorded : List Chunk → Chunk → Option GoError → List Chunk × Option GoError
recorded took c (some e) = (took, some e)
recorded took c none = (c ∷ took, none)

-- A consumer that takes or refuses a chunk by what it took before; its state is what it took, the last
-- first.
abbrev pub recording :
    (List Chunk → Chunk → Option GoError) → List Chunk → Chunk → List Chunk × Option GoError
recording answer took c = recorded took c (answer took c)

-- What the summary should say of the chunks that were taken.
abbrev pub results_in : List Chunk → ℕ
results_in [] = 0
results_in (c ∷ cs) = (if c.is_error then 0 else 1) + results_in cs

abbrev pub errors_in : List Chunk → ℕ
errors_in [] = 0
errors_in (c ∷ cs) = (if c.is_error then 1 else 0) + errors_in cs

abbrev pub bytes_in : Codec → List Chunk → ℕ
bytes_in codec [] = 0
bytes_in codec (c ∷ cs) =
    (if c.is_error then 0 else payload_len codec c.payload) + bytes_in codec cs

-- A chunk that was taken passed the wire contract, and if it is no error it names the call.
pub record IsTagged (codec : Codec) (call_id tool_name : String) (c : Chunk) : Type 0 where
  pub deliverable : IsDeliverable codec c
  pub call_tagged : c.is_error ≡ false → c.call_id ≡ "" → call_id ≡ ""
  pub tool_tagged : c.is_error ≡ false → c.tool_name ≡ "" → tool_name ≡ ""

pub record IsAccounted (codec : Codec) (call_id tool_name : String) (took : List Chunk)
    (s : ExecutionSummary) : Type 0 where
  pub results : s.chunks_delivered ≡ results_in took
  pub errors : s.error_chunks ≡ errors_in took
  pub bytes : s.total_bytes ≡ bytes_in codec took
  pub tagged : All (IsTagged codec call_id tool_name) took

-- What comes of a chunk that the tool hands to its yield: the consumer has what it had and the tool gets
-- an error, or the consumer has one chunk more and the tool gets none. That chunk, if it is no error, bears
-- the id and the name of the tool's chunk, or the call's where they were blank.
abbrev pub IsOffered :
    String → String → List Chunk → Chunk → Progress (List Chunk) × Option GoError → Type 0
IsOffered call_id tool_name took k (p, x) =
    ((p.consumer ≡ took) × (e : GoError) × (x ≡ some e))
    ⊎ ((c : Chunk) × (p.consumer ≡ c ∷ took)
        × (x ≡ none)
        × (c.is_error ≡ false
            → (c.call_id ≡ (if str_eq k.call_id "" then call_id else k.call_id))
              × (c.tool_name ≡ (if str_eq k.tool_name "" then tool_name else k.tool_name))))

module _ (host : Host) (r : Registry) (interrupt : ℕ → Option GoError)
    (answer : List Chunk → Chunk → Option GoError) (call : ToolCall) where
  abbrev pub Kept : Progress (List Chunk) → Type 0
  Kept p = IsAccounted host.codec call.input.call_id call.tool_name p.consumer p.summary

  abbrev meta : Chunk → Chunk
  meta k = with_call_meta host r interrupt (recording answer) call k

  prepared-IsTagged :
      (k k' : Chunk)
      → prepare_chunk host.codec (meta k) ≡ ok k'
      → IsTagged host.codec call.input.call_id call.tool_name k'
  prepared-IsTagged k k' h =
      let f = prepare_chunk_fields host.codec (meta k) k' h in
      record {
        deliverable = prepare_chunk-IsDeliverable host.codec (meta k) h;
        call_tagged = λ normal blank. ground (arith, f.0, f.1, str_eq_iff k.call_id "");
        tool_tagged = λ normal blank. ground (arith, f.0, f.1, str_eq_iff k.tool_name "");
      }

  -- The tags of what the tool hands out, in what is offered for it.
  prepared-tags :
      (k k' : Chunk)
      → prepare_chunk host.codec (meta k) ≡ ok k'
      → k'.is_error ≡ false
      → (k'.call_id ≡ (if str_eq k.call_id "" then call.input.call_id else k.call_id))
        × (k'.tool_name ≡ (if str_eq k.tool_name "" then call.tool_name else k.tool_name))
  prepared-tags k k' h normal =
      let f = prepare_chunk_fields host.codec (meta k) k' h in f.1 (sym f.0 ∙ normal)

  pub consumer-account :
      (k : Chunk) (p : Progress (List Chunk))
      → (account_delivered_chunk host r interrupt (recording answer) k p).consumer ≡ p.consumer
  unfolding account_delivered_chunk
  consumer-account k p = ground arith

  taken-Kept :
      (p : Progress (List Chunk)) (k : Chunk) (a : Option GoError)
      → IsTagged host.codec call.input.call_id call.tool_name k
      → Kept p
      → Kept (taken host r interrupt (recording answer) k p (recorded p.consumer k a)).0
  unfolding account_delivered_chunk
  taken-Kept p k (some e) t h = h
  taken-Kept p k none t h = record {
    results = ground (arith, h.results);
    errors = ground (arith, h.errors);
    bytes = ground (arith, h.bytes);
    tagged =
        subst (All (IsTagged host.codec call.input.call_id call.tool_name))
          (sym (consumer-account k (record p { consumer = k ∷ p.consumer }))) (t, h.tagged);
  }

  offer-Kept :
      (p : Progress (List Chunk)) (c : Result Chunk)
      → ((k : Chunk) → c ≡ ok k → IsTagged host.codec call.input.call_id call.tool_name k)
      → Kept p
      → Kept (offer host r interrupt (recording answer) p c).0
  offer-Kept p (err e) t h = h
  offer-Kept p (ok k) t h = taken-Kept p k (answer p.consumer k) (t k refl) h

  pub deliver-Kept :
      (p : Progress (List Chunk)) (c : Chunk)
      → Kept p
      → Kept (wrap_yield_with_call_meta host r interrupt (recording answer) call p c).0
  unfolding wrap_yield_with_call_meta
  deliver-Kept p c h = elim (Option-cases (interrupt p.moment)) [
    | inr (e, stopped) ↦ rw (stopped, wrap_yield_with_call_meta) h
    | inl goes_on ↦
        rw (goes_on, wrap_yield_with_call_meta)
          (offer-Kept (record p { moment = suc p.moment }) (prepare_chunk host.codec (meta c))
            (λ k e. prepared-IsTagged c k e) h)
  ]

  offer-IsOffered :
      (p : Progress (List Chunk)) (k k' : Chunk)
      → prepare_chunk host.codec (meta k) ≡ ok k'
      → IsOffered call.input.call_id call.tool_name p.consumer k (
          taken host r interrupt
            (recording answer)
            k'
            p
            (recorded p.consumer k' (answer p.consumer k')))
  offer-IsOffered p k k' h = elim (Option-cases (answer p.consumer k')) [
    | inr (e, refuses) ↦ rw refuses (inl (refl, e, refl))
    | inl takes ↦
        rw (takes, consumer-account k' (record p { consumer = k' ∷ p.consumer }))
          (inr (k', refl, refl, prepared-tags k k' h))
  ]

  pub deliver-IsOffered :
      (p : Progress (List Chunk)) (k : Chunk)
      → IsOffered call.input.call_id call.tool_name p.consumer k
          (wrap_yield_with_call_meta host r interrupt (recording answer) call p k)
  unfolding wrap_yield_with_call_meta
  deliver-IsOffered p k = elim (Option-cases (interrupt p.moment)) [
    | inr (e, stopped) ↦ rw (stopped, wrap_yield_with_call_meta) (inl (refl, e, refl))
    | inl goes_on ↦ elim (Result-cases (prepare_chunk host.codec (meta k))) [
      | inr (e, bad) ↦ rw (goes_on, bad, wrap_yield_with_call_meta) (inl (refl, e, refl))
      | inl (k', good) ↦
          rw (goes_on, good, wrap_yield_with_call_meta)
            (offer-IsOffered (record p { moment = suc p.moment }) k k' good)
    ]
  ]
