-- ===== src/Sql/Verdict.antt =====
-- internal/sqlutil/readonly.go: the verdict on a text, by its words, and on a text with a semicolon.
use toolsy.Prelude.{
  ℕ, zero, suc, ◌<◌, ◌≡◌, refl, ap, ◌∙◌, ◌↔◌, true, false, List, [], ◌∷◌, none, some, arith, length,
  is_empty,
}
use toolsy.Errors.{ok, err}
use toolsy.Bytes.{Bytes, trim_space}
use toolsy.Sql.{
  sql_tokens, need_first, validate_read_only_query, validate_trimmed, normal, validation_tool_error,
  any_forbidden, starts_reading, check_tokens, run_scan, step,
}
use toolsy.Sql.Segments.{Segment, render, render_all, words, fits, IsText}
use toolsy.Sql.Literals.{sql_tokens-render_all, segment-Reaches, after}

abbrev Reads : List Bytes → Type 0
Reads ws = (starts_reading ws ≡ true) × (any_forbidden ws ≡ false)

scanned_nothing : (ws : List Bytes) → sql_tokens [] ≡ need_first (some (ok ws)) → ws ≡ []
unfolding sql_tokens run_scan
scanned_nothing [] h = refl
scanned_nothing (w ∷ ws) h = cc

validate_trimmed_lem :
    (upper : Bytes → Bytes) (x : Bytes) (ws : List Bytes)
    → is_empty x ≡ false
    → sql_tokens (upper x) ≡ need_first (some (ok ws))
    → (validate_trimmed upper x ≡ some none) ↔ Reads ws
unfolding validate_trimmed check_tokens starts_reading
validate_trimmed_lem upper [] ws f h = absurd (cc)
validate_trimmed_lem upper (c ∷ cs) [] f h = rw h ((λ e. cc), λ r. cc (r.0))
validate_trimmed_lem upper (c ∷ cs) (w ∷ ws) f h = rw h ((λ e. ground arith), λ r. ground arith)

-- The text of segments before other bytes, and that each is read there as it was written.
abbrev pub render_before : List Segment → Bytes → Bytes
render_before [] rest = rest
render_before (s ∷ ss) rest = render s (render_before ss rest)

abbrev pub IsTextBefore : List Segment → Bytes → Type 0
IsTextBefore [] rest = Unit
IsTextBefore (s ∷ ss) rest = (fits s (render_before ss rest) ≡ true) × IsTextBefore ss rest

run_scan-semicolon :
    (ss : List Segment) (rest : Bytes) (fuel : ℕ) (toks : List Bytes)
    → IsTextBefore ss (59 ∷ rest)
    → length (render_before ss (59 ∷ rest)) < fuel
    → run_scan fuel normal (render_before ss (59 ∷ rest)) toks
      ≡ some (err (validation_tool_error "multiple statements are not allowed"))
unfolding run_scan step
run_scan-semicolon ss rest zero toks h k = absurd (omega arith)
run_scan-semicolon [] rest (suc f) toks h k = refl
run_scan-semicolon (s ∷ ss) rest (suc f) toks h k =
    let r = segment-Reaches (render_before ss (59 ∷ rest)) toks s (suc f) h.0 k in
    r.same ∙ run_scan-semicolon ss rest r.fuel_left (after toks s) h.1 r.enough

-- A query that is not blank, and that in upper case reads as a text of closed literals, quoted names and
-- comments, of words and of other bytes without a semicolon, is accepted exactly when its words begin with
-- SELECT or WITH and none of them is forbidden.
pub validate_read_only_query-text :
    (upper : Bytes → Bytes) (query : Bytes) (ss : List Segment)
    → is_empty (trim_space query) ≡ false
    → IsText ss
    → upper (trim_space query) ≡ render_all ss
    → (validate_read_only_query upper query ≡ some none)
      ↔ ((starts_reading (words ss) ≡ true) × (any_forbidden (words ss) ≡ false))
unfolding validate_read_only_query
validate_read_only_query-text upper query ss f h e =
    validate_trimmed_lem upper (trim_space query) (words ss) f
      (ap sql_tokens e ∙ sql_tokens-render_all ss h)

-- A query that is not blank, and that in upper case reads as such a text up to a semicolon, is refused as
-- one of multiple statements, whatever bytes follow.
pub validate_read_only_query-semicolon :
    (upper : Bytes → Bytes) (query : Bytes) (ss : List Segment) (rest : Bytes)
    → is_empty (trim_space query) ≡ false
    → IsTextBefore ss (59 ∷ rest)
    → upper (trim_space query) ≡ render_before ss (59 ∷ rest)
    → validate_read_only_query upper query
      ≡ some (some (validation_tool_error "multiple statements are not allowed"))
unfolding validate_read_only_query sql_tokens
validate_read_only_query-semicolon upper query ss rest f h e =
    let scan =
      run_scan-semicolon ss rest (suc (length (render_before ss (59 ∷ rest)))) [] h (omega arith) in
    rw (f, e, scan) refl
