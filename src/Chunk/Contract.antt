-- ===== src/Chunk/Contract.antt =====
-- chunk_normalize.go: what holds of a chunk that is delivered.
use toolsy.Prelude.{
  ◌≡◌, refl, ◌≢◌, ◌⊎◌, inl, inr, ap, sym, subst, ◌∙◌, Bool, true, false, Option, none, some, arith,
  if◌then◌else◌, str_eq, Bool-cases, Option-cases,
}
use toolsy.Errors.{GoError, Result, ok, err, ok_injective}
use toolsy.Chunk.{Codec, Chunk, result, mime_tool_error_json}
use toolsy.Chunk.Wire.{new_error_chunk_from_err}
use toolsy.Chunk.Prepare.{
  validate_chunk, validate_data, validate_error_chunk, normalize_error_chunk, prepare_chunk,
  with_envelope, malformed_error,
}

if_same : {A : Type 0} {x y : A} (b : Bool) → (b ≡ false → y ≡ x) → (if b then x else y) ≡ x
if_same true f = refl
if_same false f = f refl

module _ (c : Codec) where
  -- A chunk built from an error passes every check, whatever the error.
  pub prepare_chunk-new_error_chunk :
      (e : GoError)
      → prepare_chunk c (new_error_chunk_from_err c e) ≡ ok (new_error_chunk_from_err c e)
  unfolding prepare_chunk normalize_error_chunk new_error_chunk_from_err validate_error_chunk
  prepare_chunk-new_error_chunk e = ground arith

  normalize_error_chunk-malformed :
      (k : Chunk)
      → k.is_error ≡ true
      → str_eq k.mime_type mime_tool_error_json ≡ false
      → normalize_error_chunk c k ≡ new_error_chunk_from_err c (malformed_error c k)
  unfolding normalize_error_chunk
  normalize_error_chunk-malformed k h m = rw (h, m)

  pub normalize_error_chunk-normal :
      (k : Chunk)
      → (k.is_error ≡ false) ⊎ (str_eq k.mime_type mime_tool_error_json ≡ true)
      → normalize_error_chunk c k ≡ k
  unfolding normalize_error_chunk
  normalize_error_chunk-normal k (inl e) = rw e
  normalize_error_chunk-normal k (inr e) = elim (Bool-cases k.is_error) [
    | inl y ↦ rw (y, e)
    | inr n ↦ rw n
  ]

  abbrev finish : Chunk → Option GoError → Result Chunk
  finish n none = ok (with_envelope c n)
  finish n (some e) = err e

  abbrev prepare_normalized : Chunk → Result Chunk
  prepare_normalized n = finish n (validate_chunk c n)

  prepare_chunk-eq :
      (k : Chunk) → prepare_chunk c k ≡ prepare_normalized (normalize_error_chunk c k)
  unfolding prepare_chunk
  prepare_chunk-eq k =
      ap prepare_normalized (if_same k.is_error (λ n. sym (normalize_error_chunk-normal k (inl n))))

  -- An error chunk with another payload than a tool error is not refused: it is replaced by one
  -- that carries an internal error.
  pub prepare_chunk-malformed :
      (k : Chunk)
      → k.is_error ≡ true
      → str_eq k.mime_type mime_tool_error_json ≡ false
      → prepare_chunk c k ≡ ok (new_error_chunk_from_err c (malformed_error c k))
  prepare_chunk-malformed k h m =
      let e = malformed_error c k in
      prepare_chunk-eq k
      ∙ ap prepare_normalized (
          normalize_error_chunk-malformed k h m
          ∙ sym (
              normalize_error_chunk-normal (new_error_chunk_from_err c e)
                (inr (unfold new_error_chunk_from_err in refl))))
      ∙ sym (prepare_chunk-eq (new_error_chunk_from_err c e))
      ∙ prepare_chunk-new_error_chunk e

  with_envelope-validate : (k : Chunk) → validate_chunk c (with_envelope c k) ≡ validate_chunk c k
  unfolding validate_chunk with_envelope validate_data validate_error_chunk
  with_envelope-validate k = ground arith

  with_envelope_idem : (k : Chunk) → with_envelope c (with_envelope c k) ≡ with_envelope c k
  unfolding with_envelope
  with_envelope_idem k = ground arith

  abbrev IsNormal : Chunk → Type 0
  IsNormal k = (k.is_error ≡ false) ⊎ (str_eq k.mime_type mime_tool_error_json ≡ true)

  normalize_error_chunk-IsNormal : (k : Chunk) → IsNormal (normalize_error_chunk c k)
  normalize_error_chunk-IsNormal k = elim (Bool-cases k.is_error) [
    | inr n ↦ subst IsNormal (sym (normalize_error_chunk-normal k (inl n))) (inl n)
    | inl y ↦ elim (Bool-cases (str_eq k.mime_type mime_tool_error_json)) [
      | inl m ↦ subst IsNormal (sym (normalize_error_chunk-normal k (inr m))) (inr m)
      | inr m ↦
          subst IsNormal (sym (normalize_error_chunk-malformed k y m))
            (inr (unfold new_error_chunk_from_err in refl))
    ]
  ]

  with_envelope-IsNormal : (k : Chunk) → IsNormal k → IsNormal (with_envelope c k)
  unfolding with_envelope
  with_envelope-IsNormal k h = ground arith

  -- What the consumer is promised of a chunk: it passes the checks, an error chunk carries a tool
  -- error, and a result has an envelope.
  pub record IsDeliverable (k : Chunk) : Type 0 where
    pub checked : validate_chunk c k ≡ none
    pub errors_typed : k.is_error ≡ true → str_eq k.mime_type mime_tool_error_json ≡ true
    pub enveloped : k.event ≡ result → k.envelope ≢ none

  with_envelope-enveloped :
      (k : Chunk) → (with_envelope c k).event ≡ result → (with_envelope c k).envelope ≢ none
  unfolding with_envelope
  with_envelope-enveloped k h = ground arith

  prepared :
      (k k' : Chunk)
      → prepare_chunk c k ≡ ok k'
      → let n = normalize_error_chunk c k in (validate_chunk c n ≡ none) × (with_envelope c n ≡ k')
  prepared k k' h =
      let n = normalize_error_chunk c k in
      let e : prepare_normalized n ≡ ok k' = sym (prepare_chunk-eq k) ∙ h in
      elim (Option-cases (validate_chunk c n)) [
        | inl good ↦ (good, ok_injective (subst (λ v. finish n v ≡ ok k') good e))
        | inr (x, bad) ↦ absurd (cc (subst (λ v. finish n v ≡ ok k') bad e))
      ]

  -- Every chunk that `prepareChunk` lets through passes its checks; an error chunk then has the MIME type
  -- of a tool error, and a result has an envelope.
  pub prepare_chunk-IsDeliverable :
      (k : Chunk) {k' : Chunk} → prepare_chunk c k ≡ ok k' → IsDeliverable k'
  prepare_chunk-IsDeliverable k {k'} h =
      let n = normalize_error_chunk c k in
      let p = prepared k k' h in
      let normal = with_envelope-IsNormal n (normalize_error_chunk-IsNormal k) in
      subst IsDeliverable p.1 (record {
        checked = with_envelope-validate n ∙ p.0;
        errors_typed = λ y. ground (arith, normal);
        enveloped = with_envelope-enveloped n;
      })

  -- Preparing a chunk twice is preparing it once.
  pub prepare_chunk_idem :
      (k : Chunk) {k' : Chunk} → prepare_chunk c k ≡ ok k' → prepare_chunk c k' ≡ ok k'
  prepare_chunk_idem k {k'} h =
      let n = normalize_error_chunk c k in
      let p = prepared k k' h in
      let w = with_envelope c n in
      let normal = with_envelope-IsNormal n (normalize_error_chunk-IsNormal k) in
      let again : prepare_chunk c w ≡ ok w =
        prepare_chunk-eq w
        ∙ ap prepare_normalized (normalize_error_chunk-normal w normal)
        ∙ ap (finish w) (with_envelope-validate n ∙ p.0)
        ∙ ap ok (with_envelope_idem n) in
      subst (λ x. prepare_chunk c x ≡ ok x) p.1 again

  with_envelope_fields :
      (k : Chunk)
      → let w = with_envelope c k in
        (w.is_error ≡ k.is_error) × (w.call_id ≡ k.call_id) × (w.tool_name ≡ k.tool_name)
  unfolding with_envelope
  with_envelope_fields k = ground arith

  normalize_error_chunk-is_error : (k : Chunk) → (normalize_error_chunk c k).is_error ≡ k.is_error
  normalize_error_chunk-is_error k = elim (Bool-cases k.is_error) [
    | inr n ↦ ap (λ x. x.is_error) (normalize_error_chunk-normal k (inl n))
    | inl y ↦ elim (Bool-cases (str_eq k.mime_type mime_tool_error_json)) [
      | inl m ↦ ap (λ x. x.is_error) (normalize_error_chunk-normal k (inr m))
      | inr m ↦
          ap (λ x. x.is_error) (normalize_error_chunk-malformed k y m)
          ∙ unfold new_error_chunk_from_err in sym y
    ]
  ]

  -- A chunk that is prepared stays an error or not, and if it is none its tags stay.
  pub prepare_chunk_fields :
      (k k' : Chunk)
      → prepare_chunk c k ≡ ok k'
      → (k'.is_error ≡ k.is_error)
        × (k.is_error ≡ false → (k'.call_id ≡ k.call_id) × (k'.tool_name ≡ k.tool_name))
  prepare_chunk_fields k k' h =
      let n = normalize_error_chunk c k in
      let p = prepared k k' h in
      let w = with_envelope_fields n in
      (
        ap (λ x. x.is_error) (sym p.1) ∙ w.0 ∙ normalize_error_chunk-is_error k,
        λ normal.
            let same = normalize_error_chunk-normal k (inl normal) in
            (
              ap (λ x. x.call_id) (sym p.1) ∙ w.1 ∙ ap (λ x. x.call_id) same,
              ap (λ x. x.tool_name) (sym p.1) ∙ w.2 ∙ ap (λ x. x.tool_name) same,
            ),
      )
