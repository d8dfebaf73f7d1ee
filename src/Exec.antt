-- ===== src/Exec.antt =====
-- exectool/tool.go: the tool that runs code in a sandbox, which is a parameter.
--
-- Texts are bytes. A map is the list of its entries, and a JSON value is what the tool reads of it. The
-- reading of a limit out of an error's text is a parameter: its subject, and its bytes or 0.
pub mod Served
mod Tests
use toolsy.Prelude.{
  ℕ, String, Bool, true, false, not, ◌&&◌, ◌||◌, Option, none, some, List, [], ◌∷◌, is_empty, ltb,
  ◌==◌, if◌then◌else◌, str_eq,
}
use toolsy.Errors.{
  GoError, Sentinel, Text, lit, spelled, message, wrap, is, error_text, to_error,
  new_validation_error, new_internal_error, new_timeout_error_from, unsupported_language, canceled,
  sandbox_timeout, deadline_exceeded, read_limit_exceeded, Result, ok, err, ◌>>=◌,
}
use toolsy.Bytes.{Bytes, bytes, contains_bytes, trim_space}
use toolsy.Chunk.{Chunk, empty_chunk, result, raw, mime_json}
use toolsy.Mcp.{map_read_limit_error_for}

-- The order of strings.
unfoldable pub bytes_less : Bytes → Bytes → Bool
bytes_less [] [] = false
bytes_less [] (y ∷ ys) = true
bytes_less (x ∷ xs) [] = false
bytes_less (x ∷ xs) (y ∷ ys) = ltb x y || x == y && bytes_less xs ys

abbrev pub insert_sorted : Bytes → List Bytes → List Bytes
insert_sorted s [] = s ∷ []
insert_sorted s (t ∷ ts) =
    let rest = insert_sorted s ts in if bytes_less s t then s ∷ t ∷ ts else t ∷ rest

-- sort.Strings
abbrev pub sort_strings : List Bytes → List Bytes
sort_strings [] = []
sort_strings (s ∷ ss) = insert_sorted s (sort_strings ss)

-- The loop of normalizeLanguages: the languages, trimmed, each once.
unfoldable pub trimmed_languages : List Bytes → List Bytes → Result (List Bytes)
unfolding contains_bytes
trimmed_languages seen [] = ok []
trimmed_languages seen (language ∷ languages) =
    let trimmed = trim_space language in
    let known = contains_bytes seen trimmed in
    let rest = trimmed_languages (if known then seen else trimmed ∷ seen) languages in
    if is_empty trimmed
    then err (message (lit "language names must be non-empty" ∷ []))
    else if known
    then rest
    else rest >>= λ ts. ok (trimmed ∷ ts)

abbrev pub some_language : List Bytes → Result (List Bytes)
some_language languages =
    if is_empty languages
    then err (message (lit "at least one language must be configured" ∷ []))
    else ok (sort_strings languages)

-- normalizeLanguages
unfoldable pub normalize_languages : List Bytes → Result (List Bytes)
unfolding trimmed_languages bytes_less
normalize_languages languages = trimmed_languages [] languages >>= some_language

-- intersectLanguages
unfoldable pub intersect_languages : List Bytes → List Bytes → List Bytes
unfolding contains_bytes
intersect_languages [] allowed = []
intersect_languages (language ∷ supported) allowed =
    let rest = intersect_languages supported allowed in
    if contains_bytes allowed language then language ∷ rest else rest

abbrev pub described : {A : Type 0} → String → Result A → Result A
described t (ok a) = ok a
described t (err e) = err (wrap (lit t ∷ []) e)

abbrev pub some_in_common : List Bytes → Result (List Bytes)
some_in_common languages =
    if is_empty languages
    then err
        (message (lit "exectool: allowed languages do not intersect sandbox capabilities" ∷ []))
    else ok languages

abbrev pub restricted : List Bytes → List Bytes → Result (List Bytes)
restricted supported allowed_languages =
    if is_empty allowed_languages
    then ok supported
    else described "exectool: allowed languages" (normalize_languages allowed_languages)
      >>= λ allowed. some_in_common (intersect_languages supported allowed)

-- resolveSupportedLanguages, of the sandbox's languages and of those that the options allow
unfoldable pub resolve_supported_languages : List Bytes → List Bytes → Result (List Bytes)
unfolding normalize_languages intersect_languages
resolve_supported_languages sandbox_languages allowed_languages =
    described "exectool: supported languages" (normalize_languages sandbox_languages)
    >>= λ supported. restricted supported allowed_languages

-- A value of a decoded argument: a text, a map with its values that are texts, or another.
pub data Value : Type 0 where
  text_value : Bytes → Value
  map_value : List (Bytes × Option Bytes) → Value
  other_value : Value

abbrev pub Decoded : Type 0
Decoded = List (String × Value)

abbrev value_at : Decoded → String → Option Value
value_at [] key = none
value_at ((k, v) ∷ m) key = if str_eq k key then some v else value_at m key

-- decodedString
abbrev pub decoded_string : Decoded → String → Option Bytes
decoded_string m key = elim (value_at m key) [
  | some v ↦ elim v [ text_value s ↦ some s | map_value es ↦ none | other_value ↦ none ]
  | none ↦ none
]

abbrev add_text :
    Bytes → Option Bytes → Option (List (Bytes × Bytes)) → Option (List (Bytes × Bytes))
add_text k (some s) (some out) = some ((k, s) ∷ out)
add_text k _ _ = none

abbrev all_texts : List (Bytes × Option Bytes) → Option (List (Bytes × Bytes))
all_texts [] = some []
all_texts ((k, v) ∷ es) = add_text k v (all_texts es)

-- decodedStringMap, with no entries where the code leaves the argument nil
abbrev pub decoded_string_map : Decoded → String → List (Bytes × Bytes)
decoded_string_map m key = elim (value_at m key) [
  | none ↦ []
  | some v ↦ elim v [
    | text_value s ↦ []
    | other_value ↦ []
    | map_value es ↦ elim (all_texts es) [ some out ↦ out | none ↦ [] ]
  ]
]

pub record ExecArgs : Type 0 where
  pub language : Bytes
  pub code : Bytes
  pub env : List (Bytes × Bytes)
  pub files : List (Bytes × Bytes)

abbrev pub invalid : Text → GoError
invalid t = to_error (new_validation_error t [])

abbrev pub needed : Option Bytes → String → Result Bytes
needed (some s) t = ok s
needed none t = err (invalid (lit t ∷ []))

-- execArgsFromDecoded
abbrev pub exec_args_from_decoded : Decoded → Result ExecArgs
exec_args_from_decoded m =
    needed (decoded_string m "language") "language is required" >>= λ language.
    needed (decoded_string m "code") "code is required" >>= λ code. ok (record {
      language = language;
      code = code;
      env = decoded_string_map m "env";
      files = decoded_string_map m "files";
    })

-- RunRequest
abbrev pub RunRequest : Type 0
RunRequest = ExecArgs

-- MapReadLimitErrorFor, or MapReadLimitError where there is no subject
abbrev read_limit_error : ℕ → String → GoError
read_limit_error max_bytes subject =
    map_read_limit_error_for max_bytes (if str_eq subject "" then "response" else subject)

-- MapSandboxReadLimitError, where `limit` reads the subject and the bytes of a limit
abbrev map_sandbox_read_limit_error : (GoError → String × ℕ) → GoError → Option GoError
map_sandbox_read_limit_error limit e =
    let (subject, max_bytes) = limit e in
    if not (is e read_limit_exceeded) || str_eq subject "" && max_bytes == 0
    then none
    else some (read_limit_error (if max_bytes == 0 then 262144 else max_bytes) subject)

-- mapExecError
unfoldable pub map_exec_error : (GoError → String × ℕ) → GoError → GoError
map_exec_error limit e =
    if is e unsupported_language
    then invalid (error_text e)
    else if is e canceled
    then e
    else if is e sandbox_timeout || is e deadline_exceeded
    then to_error (new_timeout_error_from e true)
    else elim (map_sandbox_read_limit_error limit e) [
      | some mapped ↦ mapped
      | none ↦ wrap (lit "exectool: sandbox run" ∷ []) e
    ]

abbrev pub checked_args : List Bytes → ExecArgs → Result RunRequest
checked_args supported args =
    let language = trim_space args.language in
    if is_empty (trim_space args.code)
    then err (invalid (lit "code is required" ∷ []))
    else if contains_bytes supported language
    then ok (record args { language = language })
    else err (
        invalid (lit "unsupported language \"" ∷ spelled language ∷ lit "\" for this sandbox" ∷ []))

-- The checks of a request: code that is not blank, and a language that is supported.
unfoldable pub exec_request : List Bytes → Decoded → Result RunRequest
unfolding contains_bytes
exec_request supported m = exec_args_from_decoded m >>= λ args. checked_args supported args

module _ {S C R : Type 0} (supported : List Bytes) (limit : GoError → String × ℕ)
    (sandbox : S → RunRequest → S × Result R) (marshal : R → Result Bytes)
    (yield : C → Chunk → C × Option GoError) where
  -- The result as one chunk.
  abbrev pub emit : C → R → C × Option GoError
  emit c res = elim (marshal res) [
    | err e ↦
        (c, some (to_error (new_internal_error (wrap (lit "exectool: marshal result" ∷ []) e))))
    | ok out ↦
        yield c (record empty_chunk { event = result; payload = raw out; mime_type = mime_json })
  ]

  abbrev pub after_sandbox : C → S × Result R → (S × C) × Option GoError
  after_sandbox c (s, err e) = ((s, c), some (map_exec_error limit e))
  after_sandbox c (s, ok res) = let (c', e) = emit c res in ((s, c'), e)

  -- The handler of the tool.
  unfoldable pub run_code : Decoded → S → C → (S × C) × Option GoError
  unfolding exec_request map_exec_error
  run_code m s c = elim (exec_request supported m) [
    | err e ↦ ((s, c), some e)
    | ok req ↦ after_sandbox c (sandbox s req)
  ]
