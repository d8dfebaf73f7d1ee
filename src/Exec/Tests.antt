-- ===== src/Exec/Tests.antt =====
-- exectool: the tool at a sandbox of two languages that counts its runs.
use toolsy.Prelude.{ℕ, ◌+◌, Option, none, some, String, List, [], ◌∷◌, ◌++◌, ◌≡◌, refl}
use toolsy.Errors.{GoError, Result, ok}
use toolsy.Bytes.{Bytes, bytes, contains_bytes, trim_space}
use toolsy.Chunk.{Chunk}
use toolsy.Exec.{
  Decoded, text_value, map_value, RunRequest, resolve_supported_languages, run_code, bytes_less,
}
use toolsy.Exec.Served.{IsServed, IsResolved, run_code-IsServed}

abbrev own_languages : List Bytes
own_languages = bytes " python" ∷ bytes "bash" ∷ bytes "bash " ∷ []

abbrev allowed_languages : List Bytes
allowed_languages = bytes "python" ∷ bytes "ruby" ∷ []

sorted_without_copies :
    resolve_supported_languages own_languages [] ≡ ok (bytes "bash" ∷ bytes "python" ∷ [])
unfolding resolve_supported_languages trim_space contains_bytes bytes_less
sorted_without_copies = refl

abbrev arguments : Decoded
arguments =
    ("language", text_value (bytes "python "))
    ∷ ("code", text_value (bytes "print(1)"))
    ∷ ("env", map_value ((bytes "A", some (bytes "1")) ∷ []))
    ∷ []

abbrev no_limit : GoError → String × ℕ
no_limit e = ("", 0)

abbrev count_runs : ℕ → RunRequest → ℕ × Result Bytes
count_runs n req = (n + 1, ok req.code)

abbrev keep_chunks : List Chunk → Chunk → List Chunk × Option GoError
keep_chunks cs c = (cs ++ c ∷ [], none)

run_code-IsServed_example :
    IsServed no_limit count_runs
      (λ b. ok b)
      keep_chunks
      (IsResolved own_languages allowed_languages)
      arguments
      0
      []
      (run_code (bytes "python" ∷ []) no_limit count_runs (λ b. ok b) keep_chunks arguments 0 [])
unfolding resolve_supported_languages trim_space contains_bytes bytes_less
run_code-IsServed_example =
    run_code-IsServed no_limit count_runs (λ b. ok b) keep_chunks own_languages allowed_languages
      (bytes "python" ∷ []) arguments 0 [] refl

one_run :
    (run_code (bytes "python" ∷ []) no_limit count_runs (λ b. ok b) keep_chunks arguments 0 []).0.0
    ≡ 1
unfolding run_code trim_space contains_bytes
one_run = refl
