-- ===== src/Sql/Literals.antt =====
-- internal/sqlutil/readonly.go: the scanner finds exactly the words outside literals and comments.
use mathlib.Core.List.{append-nil, append_assoc}
use toolsy.Prelude.{
  ℕ, zero, suc, ◌<◌, ◌≡◌, refl, ◌∙◌, ap, inl, inr, true, false, List, [], ◌∷◌, ◌++◌, some, arith,
  length, all, Bool-cases, length-append, ◌==◌,
}
use toolsy.Errors.{ok}
use toolsy.Bytes.{Bytes}
use toolsy.Sql.{
  ScanState, normal, single_quote, double_quote, line_comment, block_comment, is_word_byte, word_of,
  after_word, next_is, step, step_quoted, run_scan, sql_tokens, need_first,
}
use toolsy.Sql.Segments.{
  Segment, word, string_literal, quoted_name, line_note, block_note, other, doubled, render,
  render_all, words, fits, IsText, continues_word, lacks_newline, lacks_close,
}

-- From state `st` before `left`, the scan comes to the normal state before `rest` with `found`
-- as its tokens, with fuel that is still enough.
pub record Reaches (fuel : ℕ) (st : ScanState) (left : Bytes) (toks : List Bytes) (rest : Bytes)
    (found : List Bytes) : Type 0 where
  pub fuel_left : ℕ
  pub enough : length rest < fuel_left
  pub same : run_scan fuel st left toks ≡ run_scan fuel_left normal rest found

word_of-append :
    (w rest : Bytes)
    → all is_word_byte w ≡ true
    → continues_word rest ≡ false
    → (word_of (w ++ rest) ≡ w) × (after_word (w ++ rest) ≡ rest)
unfolding word_of after_word
word_of-append [] [] h k = (refl, refl)
word_of-append [] (c ∷ cs) h k = (ground arith, ground arith)
word_of-append (c ∷ w) rest h k =
    let ih = word_of-append w rest (ground arith) k in (ground (arith, ih.0), ground (arith, ih.1))

-- One step, and then the rest of the way.
advance :
    {f : ℕ} {st st' : ScanState} {c : ℕ} {cs left : Bytes} {toks toks' : List Bytes} {rest : Bytes}
    {found : List Bytes}
    → step st c cs toks ≡ ok (record { rest = left; state = st'; tokens = toks' })
    → Reaches f st' left toks' rest found
    → Reaches (suc f) st (c ∷ cs) toks rest found
unfolding run_scan
advance e r = record { fuel_left = r.fuel_left; enough = r.enough; same = rw (e, run_scan) r.same }

arrived :
    {f : ℕ} {rest : Bytes} {found : List Bytes}
    → length rest < f
    → Reaches f normal rest found rest found
arrived {f} h = record { fuel_left = f; enough = h; same = refl }

module _ (q : ℕ) (st : ScanState)
    (is : (c : ℕ) (cs : Bytes) (toks : List Bytes) → step st c cs toks ≡ step_quoted q st c cs toks)
    (rest : Bytes) (toks : List Bytes) (apart : next_is q rest ≡ false) where
  -- Inside quotes, up to the closing one.
  quoted_body :
      (b : Bytes) (fuel : ℕ)
      → length (doubled q b (q ∷ rest)) < fuel
      → Reaches fuel st (doubled q b (q ∷ rest)) toks rest toks
  unfolding doubled step_quoted
  quoted_body b zero h = absurd (omega arith)
  quoted_body [] (suc f) h =
      advance (is q rest toks ∙ ground (arith, apart)) (arrived (omega arith))
  quoted_body (c ∷ b) (suc f) h = elim (Bool-cases (c == q)) [
    | inr plain ↦ rw plain (
        advance (is c (doubled q b (q ∷ rest)) toks ∙ ground (arith, plain))
          (quoted_body b f (ground (arith, plain))))
    | inl quote ↦ rw quote (
        advance (is c (c ∷ doubled q b (q ∷ rest)) toks ∙ ground (arith, quote))
          (quoted_body b f (ground (arith, quote))))
  ]

module _ (rest : Bytes) (toks : List Bytes) where
  line_body :
      (b : Bytes) (fuel : ℕ)
      → lacks_newline b ≡ true
      → length (b ++ (10 ∷ rest)) < fuel
      → Reaches fuel line_comment (b ++ (10 ∷ rest)) toks rest toks
  unfolding step
  line_body b zero k h = absurd (omega arith)
  line_body [] (suc f) k h = advance (ground arith) (arrived (omega arith))
  line_body (c ∷ b) (suc f) k h =
      advance {left = b ++ (10 ∷ rest)} (ground arith) (line_body b f (ground arith) (omega arith))

  block_body :
      (b : Bytes) (fuel : ℕ)
      → lacks_close b ≡ true
      → length (b ++ (42 ∷ 47 ∷ rest)) < fuel
      → Reaches fuel block_comment (b ++ (42 ∷ 47 ∷ rest)) toks rest toks
  unfolding step
  block_body b zero k h = absurd (omega arith)
  block_body [] (suc f) k h = advance (ground arith) (arrived (omega arith))
  block_body (c ∷ []) (suc f) k h =
      advance {left = 42 ∷ 47 ∷ rest} (ground arith) (block_body [] f refl (omega arith))
  block_body (c ∷ d ∷ b) (suc f) k h =
      advance {left = d ∷ b ++ (42 ∷ 47 ∷ rest)} (ground arith)
        (block_body (d ∷ b) f (ground arith) (omega arith))

-- The tokens after a segment.
abbrev pub after : List Bytes → Segment → List Bytes
after toks (word w) = toks ++ w ∷ []
after toks (string_literal b) = toks
after toks (quoted_name b) = toks
after toks (line_note b) = toks
after toks (block_note b) = toks
after toks (other c) = toks

module _ (rest : Bytes) (toks : List Bytes) where
  word-Reaches :
      (w : Bytes) (fuel : ℕ)
      → fits (word w) rest ≡ true
      → length (w ++ rest) < fuel
      → Reaches fuel normal (w ++ rest) toks rest (toks ++ w ∷ [])
  unfolding step
  word-Reaches w zero k h = absurd (omega arith)
  word-Reaches [] (suc f) k h = cc
  word-Reaches (c ∷ w) (suc f) k h =
      let e = word_of-append (c ∷ w) rest (ground arith) (ground arith) in
      advance {st' = normal} {left = rest} (ground (arith, e.0, e.1))
        (arrived (omega (arith, length-append w rest)))

  pub segment-Reaches :
      (s : Segment) (fuel : ℕ)
      → fits s rest ≡ true
      → length (render s rest) < fuel
      → Reaches fuel normal (render s rest) toks rest (after toks s)
  unfolding render step
  segment-Reaches s zero k h = absurd (omega arith)
  segment-Reaches (word w) (suc f) k h = word-Reaches w (suc f) k h
  segment-Reaches (string_literal b) (suc f) k h =
      advance {st' = single_quote} {left = doubled 39 b (39 ∷ rest)} refl
        (quoted_body 39 single_quote (λ c cs t. refl) rest toks (ground arith) b f (omega arith))
  segment-Reaches (quoted_name b) (suc f) k h =
      advance {st' = double_quote} {left = doubled 34 b (34 ∷ rest)} refl
        (quoted_body 34 double_quote (λ c cs t. refl) rest toks (ground arith) b f (omega arith))
  segment-Reaches (line_note b) (suc f) k h =
      advance {st' = line_comment} {left = b ++ (10 ∷ rest)} refl
        (line_body rest toks b f k (omega arith))
  segment-Reaches (block_note b) (suc f) k h =
      advance {st' = block_comment} {left = b ++ (42 ∷ 47 ∷ rest)} refl
        (block_body rest toks b f k (omega arith))
  segment-Reaches (other c) (suc f) k h =
      advance {st' = normal} {left = rest} (ground arith) (arrived (omega arith))

append-after :
    (toks : List Bytes) (s : Segment) (ss : List Segment)
    → after toks s ++ words ss ≡ toks ++ words (s ∷ ss)
append-after toks (word w) ss = append_assoc toks (w ∷ []) (words ss)
append-after toks _ ss = refl

-- From the normal state the scan of a text finds its words after those found before.
run_scan-render_all :
    (ss : List Segment) (fuel : ℕ) (toks : List Bytes)
    → IsText ss
    → length (render_all ss) < fuel
    → run_scan fuel normal (render_all ss) toks ≡ some (ok (toks ++ words ss))
unfolding run_scan render_all
run_scan-render_all [] zero toks h k = absurd (omega arith)
run_scan-render_all [] (suc f) toks h k = rw append-nil
run_scan-render_all (s ∷ ss) fuel toks h k =
    let r = segment-Reaches (render_all ss) toks s fuel h.0 k in
    r.same
    ∙ run_scan-render_all ss r.fuel_left (after toks s) h.1 r.enough
    ∙ ap (λ l. some (ok l)) (append-after toks s ss)

-- The scanner's tokens are exactly the words of a text that stand outside its literals, quoted
-- names and comments, whatever those hold; a text with no word is refused.
pub sql_tokens-render_all :
    (ss : List Segment) → IsText ss → sql_tokens (render_all ss) ≡ need_first (some (ok (words ss)))
unfolding sql_tokens
sql_tokens-render_all ss h =
    ap need_first (run_scan-render_all ss (suc (length (render_all ss))) [] h (omega arith))
