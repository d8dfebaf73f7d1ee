-- ===== src/Sql.antt =====
-- internal/sqlutil/readonly.go: the lexical check that a query only reads.
--
-- A query is the list of its bytes, and the scanner's index is the list that is left. `strings.ToUpper`
-- is any function `upper` from bytes to bytes.
pub mod Scan
pub mod Segments
pub mod Literals
pub mod Verdict
mod Tests
use toolsy.Prelude.{
  ℕ, zero, suc, ◌-◌, String, Bool, true, false, not, ◌&&◌, ◌||◌, Option, none, some, List, [], ◌∷◌,
  ◌++◌, map, length, is_empty, ltb, leb, ◌==◌, if◌then◌else◌,
}
use toolsy.Bytes.{Bytes, bytes, same_bytes, contains_bytes, trim_space}
use toolsy.Errors.{GoError, Text, lit, to_error, new_validation_error, Result, ok, err, ◌>>=◌}

pub data ScanState : Type 0 where
  normal single_quote double_quote line_comment block_comment : ScanState

-- `upperSQLScan`: the bytes left, the state, and the tokens found, first token first.
pub record UpperScan : Type 0 where
  pub rest : Bytes
  pub state : ScanState
  pub tokens : List Bytes

abbrev pub is_word_start : ℕ → Bool
is_word_start c = leb b'A' c && leb c b'Z' || c == b'_'

abbrev pub is_word_byte : ℕ → Bool
is_word_byte c = leb b'A' c && leb c b'Z' || leb b'0' c && leb c b'9' || c == b'_'

-- `upper[i+1] == d`, with the test that there is such a byte.
abbrev pub next_is : ℕ → Bytes → Bool
next_is d [] = false
next_is d (c ∷ cs) = c == d

abbrev pub tail : Bytes → Bytes
tail [] = []
tail (c ∷ cs) = cs

-- The loop of `appendIdentifierToken`: the token and the bytes after it.
unfoldable pub word_of : Bytes → Bytes
word_of [] = []
word_of (c ∷ cs) = if is_word_byte c then c ∷ word_of cs else []

unfoldable pub after_word : Bytes → Bytes
after_word [] = []
after_word (c ∷ cs) = if is_word_byte c then after_word cs else c ∷ cs

abbrev pub validation_tool_error : String → GoError
validation_tool_error reason = to_error (new_validation_error (lit reason ∷ []) [])

abbrev pub goes_to : ScanState → Bytes → List Bytes → Result UpperScan
goes_to st left toks = ok (record { rest = left; state = st; tokens = toks })

unfoldable pub step_normal : ℕ → Bytes → List Bytes → Result UpperScan
step_normal c cs toks =
    if c == b'\''
    then goes_to single_quote cs toks
    else if c == 34
    then goes_to double_quote cs toks
    else if c == b'-' && next_is b'-' cs
    then goes_to line_comment (tail cs) toks
    else if c == b'/' && next_is b'*' cs
    then goes_to block_comment (tail cs) toks
    else if c == b';'
    then err (validation_tool_error "multiple statements are not allowed")
    else if is_word_start c
    then goes_to normal (after_word (c ∷ cs)) (toks ++ word_of (c ∷ cs) ∷ [])
    else goes_to normal cs toks

-- Within quotes `q`: a doubled quote stays inside.
unfoldable pub step_quoted : ℕ → ScanState → ℕ → Bytes → List Bytes → Result UpperScan
step_quoted q st c cs toks =
    if c == q
    then (if next_is q cs then goes_to st (tail cs) toks else goes_to normal cs toks)
    else goes_to st cs toks

unfoldable pub step_line_comment : ℕ → Bytes → List Bytes → Result UpperScan
step_line_comment c cs toks =
    if c == 10 then goes_to normal cs toks else goes_to line_comment cs toks

unfoldable pub step_block_comment : ℕ → Bytes → List Bytes → Result UpperScan
step_block_comment c cs toks =
    if c == b'*' && next_is b'/' cs
    then goes_to normal (tail cs) toks
    else goes_to block_comment cs toks

-- The switch of `run`, at the byte `c` with `cs` after it.
unfoldable pub step : ScanState → ℕ → Bytes → List Bytes → Result UpperScan
unfolding step_normal step_quoted step_line_comment step_block_comment
step normal c cs toks = step_normal c cs toks
step single_quote c cs toks = step_quoted b'\'' single_quote c cs toks
step double_quote c cs toks = step_quoted 34 double_quote c cs toks
step line_comment c cs toks = step_line_comment c cs toks
step block_comment c cs toks = step_block_comment c cs toks

-- The loop of `run` with fuel; `none` means that the fuel ran out.
unfoldable pub run_scan : ℕ → ScanState → Bytes → List Bytes → Option (Result (List Bytes))
run_scan zero st left toks = none
run_scan (suc fuel) st [] toks = some (ok toks)
run_scan (suc fuel) st (c ∷ cs) toks = elim (step st c cs toks) [
  | err e ↦ some (err e)
  | ok s ↦ run_scan fuel s.state s.rest s.tokens
]

-- The end of `run`: there has to be a first token.
abbrev pub need_first : Option (Result (List Bytes)) → Option (Result (List Bytes))
need_first none = none
need_first (some (err e)) = some (err e)
need_first (some (ok [])) =
    some (err (validation_tool_error "only SELECT and WITH (CTE) queries are allowed"))
need_first (some (ok (t ∷ ts))) = some (ok (t ∷ ts))

-- `sqlTokensOutsideStringsAndComments`
unfoldable pub sql_tokens : Bytes → Option (Result (List Bytes))
sql_tokens upper = need_first (run_scan (suc (length upper)) normal upper [])

abbrev pub forbidden_read_only_keywords : List Bytes
forbidden_read_only_keywords =
    bytes "INSERT"
    ∷ bytes "UPDATE"
    ∷ bytes "DELETE"
    ∷ bytes "MERGE"
    ∷ bytes "DROP"
    ∷ bytes "CREATE"
    ∷ bytes "ALTER"
    ∷ bytes "TRUNCATE"
    ∷ bytes "REPLACE"
    ∷ bytes "EXEC"
    ∷ bytes "EXECUTE"
    ∷ bytes "CALL"
    ∷ bytes "GRANT"
    ∷ bytes "REVOKE"
    ∷ []

unfoldable pub any_forbidden : List Bytes → Bool
any_forbidden [] = false
any_forbidden (t ∷ ts) = contains_bytes forbidden_read_only_keywords t || any_forbidden ts

-- The test of the first token.
unfoldable pub starts_reading : List Bytes → Bool
starts_reading [] = false
starts_reading (t ∷ ts) = same_bytes t (bytes "SELECT") || same_bytes t (bytes "WITH")

unfoldable pub check_tokens : List Bytes → Option GoError
check_tokens toks =
    if starts_reading toks
    then (if any_forbidden toks
        then some (validation_tool_error "only read-only SELECT queries are allowed")
        else none)
    else some (validation_tool_error "only SELECT and WITH (CTE) queries are allowed")

-- `ValidateReadOnlyQuery` of a query that is trimmed: `some none` accepts, and the outer `none` is
-- the lack of fuel.
unfoldable pub validate_trimmed : (Bytes → Bytes) → Bytes → Option (Option GoError)
validate_trimmed upper query =
    if is_empty query
    then some (some (validation_tool_error "query is required"))
    else elim (sql_tokens (upper query)) [
      | none ↦ none
      | some (err e) ↦ some (some e)
      | some (ok toks) ↦ some (check_tokens toks)
    ]

unfoldable pub validate_read_only_query : (Bytes → Bytes) → Bytes → Option (Option GoError)
unfolding validate_trimmed
validate_read_only_query upper query = validate_trimmed upper (trim_space query)
