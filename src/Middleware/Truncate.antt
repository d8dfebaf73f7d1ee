-- ===== src/Middleware/Truncate.antt =====
-- middleware_truncation.go: the textual payloads of a tool's chunks cut to a number of runes.
use toolsy.Prelude.{
  ℕ, String, Bool, true, false, not, ◌||◌, Option, none, some, ◌≡◌, ◌≤◌, inl, inr, length, leb,
  leb→le, ◌==◌, str_eq, is_empty, if◌then◌else◌, Bool-cases, arith, All, List, [], ◌∷◌,
}
use toolsy.Errors.{GoError}
use toolsy.Bytes.{Bytes}
use toolsy.TextProcessor.{valid, runes, truncate_bytes_by_runes}
use toolsy.TextProcessor.Bounds.{runes-truncate_bytes_by_runes}
use toolsy.Chunk.{Chunk, Payload, raw, wire, ToolErrorWire}
use toolsy.Tool.{Script, done, panic, emit, spawn, Middleware, wrapper}
use toolsy.Tool.Run.{run_script}

pub record TruncationConfig : Type 0 where
  pub suffix : Bytes
  pub include_json : Bool

-- `media_type` is what mime.ParseMediaType finds, in lower case, or none where it fails; `encoded` is
-- the JSON text of a tool error.
module _ (media_type : String → Option String) (encoded : ToolErrorWire → Bytes) where
  unfoldable pub should_truncate_mime_type : String → Bool → Bool
  should_truncate_mime_type mime include_json = elim (media_type mime) [
    | none ↦ false
    | some m ↦
        if str_eq m "text/plain" || str_eq m "text/markdown"
        then true
        else if str_eq m "application/json"
        then include_json
        else false
  ]

  abbrev pub data_of : Payload → Bytes
  data_of (raw bs) = bs
  data_of (wire w) = encoded w

  module _ (max_runes : ℕ) (cfg : TruncationConfig) where
    -- What yieldWrapped hands on.
    unfoldable pub truncate_chunk : Chunk → Chunk
    unfolding should_truncate_mime_type valid runes truncate_bytes_by_runes
    truncate_chunk c =
        let bs = data_of c.payload in
        if is_empty bs || not (should_truncate_mime_type c.mime_type cfg.include_json)
        then c
        else if not (valid bs)
        then c
        else if leb (length (runes bs)) max_runes
        then c
        else record c { payload = raw (truncate_bytes_by_runes bs max_runes cfg.suffix) }

    unfoldable pub truncate_run : Script → Script
    unfolding truncate_chunk
    truncate_run (done e) = done e
    truncate_run (panic p) = panic p
    truncate_run (emit c k) = emit (truncate_chunk c) (λ a. truncate_run (k a))
    truncate_run (spawn b k) = spawn b (truncate_run k)

    -- truncationTool.Execute, on the run of the next tool; a limit that is not positive is 0.
    unfoldable pub execute_truncated : Script → Script
    unfolding truncate_run
    execute_truncated next = if max_runes == 0 then next else truncate_run next

    abbrev pub with_truncation : Middleware
    with_truncation t = wrapper (λ m next env input. execute_truncated (next env input)) t

    -- A chunk whose payload, if it is one to be truncated and is valid UTF-8, is within the limit.
    abbrev pub IsShort : Chunk → Type 0
    IsShort c =
        should_truncate_mime_type c.mime_type cfg.include_json ≡ true
        → valid (data_of c.payload) ≡ true
        → length (runes (data_of c.payload)) ≤ max_runes

    truncate_chunk-IsShort : (c : Chunk) → IsShort (truncate_chunk c)
    unfolding truncate_chunk truncate_bytes_by_runes
    truncate_chunk-IsShort c =
        elim (Bool-cases (
          is_empty (data_of c.payload)
          || not (should_truncate_mime_type c.mime_type cfg.include_json))) [
            | inl a ↦ rw a (λ m v. ground (arith, a, m))
            | inr a ↦ elim (Bool-cases (valid (data_of c.payload))) [
              | inr b ↦ rw (a, b) (λ m v. absurd (cc))
              | inl b ↦ elim (Bool-cases (leb (length (runes (data_of c.payload))) max_runes)) [
                | inl d ↦
                    rw (a, b, d) (λ m v. leb→le (length (runes (data_of c.payload))) max_runes d)
                | inr d ↦
                    rw (a, b, d)
                      (let short =
                          runes-truncate_bytes_by_runes (data_of c.payload) max_runes cfg.suffix in
                        λ m v. rw (truncate_bytes_by_runes, d) at short)
              ]
            ]
          ]

    -- A consumer that keeps all chunks it is given, the last first, and answers as `answer` says of them.
    abbrev pub recording :
        (List Chunk → Chunk → Option GoError) → List Chunk → Chunk → List Chunk × Option GoError
    recording answer seen c = (c ∷ seen, answer seen c)

    truncate_run-IsShort :
        (answer : List Chunk → Chunk → Option GoError) (t : Script) (seen : List Chunk)
        → All IsShort seen
        → All IsShort (run_script (recording answer) (λ s b. s) (truncate_run t) seen).0
    unfolding truncate_run run_script
    truncate_run-IsShort answer (done e) seen h = h
    truncate_run-IsShort answer (panic p) seen h = h
    truncate_run-IsShort answer (emit c k) seen h =
        truncate_run-IsShort answer (k (answer seen (truncate_chunk c))) (truncate_chunk c ∷ seen)
          (truncate_chunk-IsShort c, h)
    truncate_run-IsShort answer (spawn b k) seen h = truncate_run-IsShort answer k seen h

    -- Whatever a tool emits and whatever the consumer answers, with a limit that is positive the middleware
    -- hands on only chunks whose payload has at most that many runes, if its media type is one that is
    -- truncated and it is valid UTF-8.
    pub execute_truncated-IsShort :
        (answer : List Chunk → Chunk → Option GoError) (t : Script)
        → (max_runes == 0) ≡ false
        → All IsShort (run_script (recording answer) (λ s b. s) (execute_truncated t) []).0
    unfolding execute_truncated
    execute_truncated-IsShort answer t h = rw h (truncate_run-IsShort answer t [] tt)
