-- ===== src/Sql/Tests.antt =====
-- The SQL check at a query with a literal that holds a forbidden word and a semicolon.
use toolsy.Prelude.{
  map, ◌&&◌, leb, ◌-◌, if◌then◌else◌, ◌≡◌, ◌↔◌, ◌≢◌, refl, true, false, List, [], ◌∷◌, none, some,
}
use toolsy.Errors.{ok}
use toolsy.Bytes.{Bytes, bytes, contains_bytes, trim_space}
use toolsy.Sql.{
  sql_tokens, need_first, validate_read_only_query, validation_tool_error, any_forbidden,
  starts_reading, check_tokens, word_of, after_word, step, run_scan,
}
use toolsy.Sql.Scan.{validate_read_only_query-total}
use toolsy.Sql.Segments.{
  Segment, word, string_literal, block_note, other, render, render_all, words, IsText,
}
use toolsy.Sql.Verdict.{validate_read_only_query-text, validate_read_only_query-semicolon}
use toolsy.Sql.Literals.{sql_tokens-render_all}

abbrev ascii_upper : Bytes → Bytes
ascii_upper bs = map (λ c. if leb b'a' c && leb c b'z' then c - 32 else c) bs

-- SELECT 'it''s; DROP' /* ; */ AS X
abbrev text : List Segment
text =
    word (bytes "SELECT")
    ∷ other 32
    ∷ string_literal (bytes "IT'S; DROP")
    ∷ other 32
    ∷ block_note (bytes " ; * ")
    ∷ word (bytes "AS")
    ∷ other 32
    ∷ word (bytes "X")
    ∷ []

text-IsText : IsText text
unfolding render_all
text-IsText = (refl, (refl, (refl, (refl, (refl, (refl, (refl, (refl, tt))))))))

text_bytes : render_all text ≡ bytes "SELECT 'IT''S; DROP' /* ; * */AS X"
unfolding render_all
text_bytes = refl

sql_tokens-render_all_example :
    sql_tokens (render_all text)
    ≡ need_first (some (ok (bytes "SELECT" ∷ bytes "AS" ∷ bytes "X" ∷ [])))
sql_tokens-render_all_example = sql_tokens-render_all text text-IsText

validate_read_only_query-total_example :
    validate_read_only_query ascii_upper (bytes "select ';' -- x") ≢ none
validate_read_only_query-total_example =
    validate_read_only_query-total ascii_upper (bytes "select ';' -- x")

accepted : validate_read_only_query ascii_upper (bytes " select 'drop;' from t ") ≡ some none
unfolding validate_read_only_query trim_space sql_tokens run_scan step word_of after_word
    check_tokens any_forbidden starts_reading contains_bytes
accepted = refl

rejected :
    validate_read_only_query ascii_upper (bytes "with x as (delete from t) select 1")
    ≡ some (some (validation_tool_error "only read-only SELECT queries are allowed"))
unfolding validate_read_only_query trim_space sql_tokens run_scan step word_of after_word
    check_tokens any_forbidden starts_reading contains_bytes
rejected = refl

validate_read_only_query-text_example :
    (validate_read_only_query ascii_upper (bytes " select 'it''s; drop' /* ; * */as x") ≡ some none)
    ↔ ((starts_reading (words text) ≡ true) × (any_forbidden (words text) ≡ false))
unfolding trim_space render_all
validate_read_only_query-text_example =
    validate_read_only_query-text ascii_upper (bytes " select 'it''s; drop' /* ; * */as x") text
      refl text-IsText refl

-- SELECT ';'; X
abbrev first_statement : List Segment
first_statement = word (bytes "SELECT") ∷ other 32 ∷ string_literal (bytes ";") ∷ []

validate_read_only_query-semicolon_example :
    validate_read_only_query ascii_upper (bytes "select ';'; x")
    ≡ some (some (validation_tool_error "multiple statements are not allowed"))
unfolding trim_space render
validate_read_only_query-semicolon_example =
    validate_read_only_query-semicolon ascii_upper (bytes "select ';'; x") first_statement
      (bytes " X") refl (refl, (refl, (refl, tt))) refl

two_statements :
    validate_read_only_query ascii_upper (bytes "select 1; x")
    ≡ some (some (validation_tool_error "multiple statements are not allowed"))
unfolding validate_read_only_query trim_space sql_tokens run_scan step word_of after_word
two_statements = refl
