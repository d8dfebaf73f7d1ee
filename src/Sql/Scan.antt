-- ===== src/Sql/Scan.antt =====
-- internal/sqlutil/readonly.go: the scan ends, whatever the query.
use toolsy.Prelude.{
  ℕ, zero, suc, ◌≤◌, ◌<◌, ◌≡◌, refl, ◌≢◌, inl, inr, List, [], ◌∷◌, Option, none, some, arith,
  length, is_empty, Bool-cases,
}
use toolsy.Errors.{Result, ok, err, Result-cases}
use toolsy.Bytes.{Bytes, trim_space}
use toolsy.Sql.{
  UpperScan, ScanState, normal, single_quote, double_quote, line_comment, block_comment, tail,
  after_word, step, run_scan, need_first, sql_tokens, validate_read_only_query,
}

after_word-le : (cs : Bytes) → length (after_word cs) ≤ length cs
unfolding after_word
after_word-le [] = omega arith
after_word-le (c ∷ cs) = ground (arith, after_word-le cs)

tail-le : (cs : Bytes) → length (tail cs) ≤ length cs
tail-le [] = omega arith
tail-le (c ∷ cs) = omega arith

-- Every step takes a byte at least.
step_shrinks :
    (st : ScanState) (c : ℕ) (cs : Bytes) (toks : List Bytes) {s : UpperScan}
    → step st c cs toks ≡ ok s
    → length s.rest ≤ length cs
unfolding step after_word
step_shrinks normal c cs toks h = ground (arith, tail-le cs, after_word-le cs)
step_shrinks single_quote c cs toks h = ground (arith, tail-le cs)
step_shrinks double_quote c cs toks h = ground (arith, tail-le cs)
step_shrinks line_comment c cs toks h = ground (arith, tail-le cs)
step_shrinks block_comment c cs toks h = ground (arith, tail-le cs)

-- Fuel above the number of bytes left is enough, from any state of the scan.
pub run_scan-total :
    (fuel : ℕ) (st : ScanState) (left : Bytes) (toks : List Bytes)
    → length left < fuel
    → run_scan fuel st left toks ≢ none
unfolding run_scan
run_scan-total zero st left toks h = elim h [ ]
run_scan-total (suc fuel) st [] toks h = λ e. cc
run_scan-total (suc fuel) st (c ∷ cs) toks h = elim (Result-cases (step st c cs toks)) [
  | inr (e, bad) ↦ rw (bad, run_scan) (λ x. cc)
  | inl (s, good) ↦
      rw (good, run_scan)
        (run_scan-total fuel s.state s.rest s.tokens
          (omega (arith, step_shrinks st c cs toks good)))
]

sql_tokens-total : (upper : Bytes) → sql_tokens upper ≢ none
unfolding sql_tokens
sql_tokens-total upper =
    pick (run_scan (suc (length upper)) normal upper [])
      (run_scan-total (suc (length upper)) normal upper [] (omega arith))
  where
    pick : (r : Option (Result (List Bytes))) → r ≢ none → need_first r ≢ none
    pick none h = λ e. h refl
    pick (some (err e)) h = λ x. cc
    pick (some (ok [])) h = λ x. cc
    pick (some (ok (t ∷ ts))) h = λ x. cc

-- Every query is either accepted or rejected with an error: the scan of `ValidateReadOnlyQuery`
-- ends within one step more than the query has bytes, whatever its upper case is.
pub validate_read_only_query-total :
    (upper : Bytes → Bytes) (query : Bytes) → validate_read_only_query upper query ≢ none
unfolding validate_read_only_query
validate_read_only_query-total upper query = elim (Bool-cases (is_empty (trim_space query))) [
  | inl e ↦ rw e (λ x. cc)
  | inr e ↦ rw e (λ x. ground (arith, sql_tokens-total (upper (trim_space query))))
]
