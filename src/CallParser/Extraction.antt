-- ===== src/CallParser/Extraction.antt =====
-- callparser.go: what the call is whose arguments are extracted.
use toolsy.Prelude.{
  Bool, true, false, Option, none, List, [], ◌∷◌, ◌++◌, ◌≡◌, ◌≢◌, ◌⊎◌, inl, inr, refl, sym, ◌∙◌, ap,
  arith, length, is_empty, All, Bool-cases, Option-cases,
}
use toolsy.Errors.{GoError, ok, Result-cases, ok_injective}
use toolsy.Bytes.{Bytes, trim_space}
use toolsy.CallParser.{ContentPart, find_id, put_id, normalize_tool_call_parts}
use toolsy.CallParser.Calls.{
  reject_multiple_tool_calls, matches_of, group_matches, add_match, validated_tool_call_args,
  take_one, extract_match, extract_normalized, extract_exactly_one,
}
use toolsy.CallParser.Groups.{call_keys, reject_multiple_tool_calls-same}
use toolsy.CallParser.Matches.{
  joined, HasId, is_empty→eq, group_matches-nameless, group_matches-one, group_matches-longer,
}

-- The matches are parts of one call, by its id or as the only part, and the bytes are its arguments.
abbrev pub IsOneCall : List ContentPart → Bytes → Type 0
IsOneCall ms bs =
    ((id : Bytes) × (is_empty id ≡ false) × All (HasId id) ms × (bs ≡ trim_space (joined ms)))
    ⊎ ((p : ContentPart) × (ms ≡ p ∷ [])
        × HasId [] p
        × (bs ≡ trim_space (trim_space (p.args ++ p.args_chunk))))

module _ (unmarshal_raw : Bytes → Option GoError) where
  abbrev pub IsJson : Bytes → Type 0
  IsJson bs = (is_empty bs ≡ false) × (unmarshal_raw bs ≡ none)

  validated_tool_call_args-IsJson :
      (tool_name args bs : Bytes)
      → validated_tool_call_args unmarshal_raw tool_name args ≡ ok bs
      → (bs ≡ trim_space args) × IsJson bs
  unfolding validated_tool_call_args
  validated_tool_call_args-IsJson tool_name args bs h =
      elim (Bool-cases (is_empty (trim_space args))) [
        | inl e ↦ absurd (cc (rw (validated_tool_call_args, e) at h))
        | inr e ↦ elim (Option-cases (unmarshal_raw (trim_space args))) [
          | inr (f, u) ↦ absurd (cc (rw (validated_tool_call_args, e, u) at h))
          | inl u ↦
              let same : trim_space args ≡ bs =
                ok_injective (rw (validated_tool_call_args, e, u) at h) in
              rw (← same) (refl, (e, u))
        ]
      ]

  -- What the groups of the matches are where one call is taken.
  abbrev IsTaken : Bytes → List (Bytes × Bytes) → List ContentPart → Bytes → Type 0
  IsTaken tool_name by_id no_id bs =
      ((id : Bytes) × (args : Bytes) × (by_id ≡ (id, args) ∷ [])
        × (no_id ≡ [])
        × (bs ≡ trim_space args)
        × IsJson bs)
      ⊎ ((p : ContentPart) × (by_id ≡ [])
          × (no_id ≡ p ∷ [])
          × (bs ≡ trim_space (trim_space (p.args ++ p.args_chunk)))
          × IsJson bs)

  take_one-IsTaken :
      (tool_name : Bytes) (by_id : List (Bytes × Bytes)) (no_id : List ContentPart) (bs : Bytes)
      → take_one unmarshal_raw tool_name (by_id, no_id) ≡ ok bs
      → IsTaken tool_name by_id no_id bs
  take_one-IsTaken tool_name ((id, args) ∷ []) [] bs h =
      let (same, json) = validated_tool_call_args-IsJson tool_name args bs h in
      inl (id, args, refl, refl, same, json)
  take_one-IsTaken tool_name ((id, args) ∷ []) (p ∷ no_id) bs h = absurd (cc)
  take_one-IsTaken tool_name (a ∷ b ∷ by_id) no_id bs h = absurd (cc)
  take_one-IsTaken tool_name [] [] bs h = absurd (cc)
  take_one-IsTaken tool_name [] (p ∷ []) bs h =
      let (same, json) =
        validated_tool_call_args-IsJson tool_name (trim_space (p.args ++ p.args_chunk)) bs h in
      inr (p, refl, refl, same, json)
  take_one-IsTaken tool_name [] (p ∷ q ∷ no_id) bs h = absurd (cc)

  -- The first match has an id, and the others are put to it.
  taken-with_id :
      (tool_name : Bytes) (p : ContentPart) (ps : List ContentPart) (bs : Bytes)
      → is_empty (trim_space p.tool_call_id) ≡ false
      → IsTaken tool_name (group_matches [] (p ∷ ps)).0 (group_matches [] (p ∷ ps)).1 bs
      → IsOneCall (p ∷ ps) bs × IsJson bs
  unfolding group_matches put_id find_id
  taken-with_id tool_name p ps bs e (inl (k, args, b, n, same, json)) =
      let id = trim_space p.tool_call_id in
      let (key, all, text) =
        group_matches-one id (p.args ++ p.args_chunk) k args ps (rw (group_matches, e) at b)
          (rw (group_matches, e) at n) in
      (inl (id, e, (refl, all), same ∙ ap trim_space text), json)
  taken-with_id tool_name p ps bs e (inr (q, b, n, same, json)) =
      let none_left : (group_matches (add_match [] p) ps).0 ≡ [] = rw (group_matches, e) at b in
      absurd (ground (arith, ap length none_left, group_matches-longer (add_match [] p) ps))

  -- The first match has no id, and is the only one.
  taken-alone :
      (tool_name : Bytes) (p : ContentPart) (ps : List ContentPart) (bs : Bytes)
      → is_empty (trim_space p.tool_call_id) ≡ true
      → IsTaken tool_name (group_matches [] (p ∷ ps)).0 (group_matches [] (p ∷ ps)).1 bs
      → IsOneCall (p ∷ ps) bs × IsJson bs
  unfolding group_matches
  taken-alone tool_name p ps bs e (inl (k, args, b, n, same, json)) =
      absurd (cc (rw (group_matches, e) at n))
  taken-alone tool_name p ps bs e (inr (q, b, n, same, json)) =
      let (rest, all) = group_matches-nameless [] ps (rw (group_matches, e) at b) in
      let alone : p ∷ ps ≡ q ∷ [] = rw (group_matches, e, rest) at n in
      let first : p ≡ q = cc in
      (
        inr (
          p,
          alone ∙ ap (λ x. x ∷ []) (sym first),
          is_empty→eq (trim_space p.tool_call_id) e,
          rw first same,
        ),
        json,
      )

  extract_match-IsOneCall :
      (tool_name : Bytes) (ms : List ContentPart) (bs : Bytes)
      → extract_match unmarshal_raw tool_name ms ≡ ok bs
      → (ms ≢ []) × IsOneCall ms bs × IsJson bs
  extract_match-IsOneCall tool_name [] bs h = absurd (cc)
  extract_match-IsOneCall tool_name (p ∷ ps) bs h =
      let taken =
        take_one-IsTaken tool_name (group_matches [] (p ∷ ps)).0 (group_matches [] (p ∷ ps)).1 bs
          h in
      elim (Bool-cases (is_empty (trim_space p.tool_call_id))) [
        | inl e ↦
            let (one, json) = taken-alone tool_name p ps bs e taken in (λ z. absurd (cc), one, json)
        | inr e ↦
            let (one, json) = taken-with_id tool_name p ps bs e taken in
            (λ z. absurd (cc), one, json)
      ]

  -- The arguments that are extracted are those of one call of the named tool, which the normalized parts
  -- have: its parts share one id, and the arguments are put together in order, or it has no id and is one
  -- part. They are trimmed, not empty and accepted by the JSON decoder, and all calls of the parts are of
  -- one group.
  pub extract_exactly_one-IsOneCall :
      (json_valid : Bytes → Bool) (parts : List ContentPart) (tool_name bs : Bytes)
      → extract_exactly_one json_valid unmarshal_raw parts tool_name ≡ ok bs
      → (ps : List ContentPart) × (normalize_tool_call_parts json_valid parts ≡ ok ps)
        × (matches_of tool_name ps ≢ [])
        × IsOneCall (matches_of tool_name ps) bs
        × IsJson bs
        × (k : Bytes) × All (λ key. key ≡ k) (call_keys 0 ps)
  unfolding extract_exactly_one
  extract_exactly_one-IsOneCall json_valid parts tool_name bs h =
      elim (Result-cases (normalize_tool_call_parts json_valid parts)) [
        | inr (e, f) ↦ absurd (cc (rw f at h))
        | inl (ps, f) ↦ elim (Option-cases (reject_multiple_tool_calls ps)) [
          | inr (e, g) ↦ absurd (cc (rw (f, extract_normalized, g) at h))
          | inl g ↦
              let (some_match, one, json) =
                extract_match-IsOneCall tool_name (matches_of tool_name ps) bs
                  (rw (f, extract_normalized, g) at h) in
              let (k, same) = reject_multiple_tool_calls-same ps g in
              (ps, f, some_match, one, json, k, same)
        ]
      ]
