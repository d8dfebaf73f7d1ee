-- ===== src/Middleware/Idempotent.antt =====
-- middleware_idempotency.go: a tool marked idempotent runs once for a key, and is then answered from a
-- store.
--
-- The store is state that a run passes on. A payload stands for its bytes.
use toolsy.Prelude.{
  String, Bool, true, false, not, ◌&&◌, Option, none, some, List, [], ◌∷◌, str_eq, if◌then◌else◌,
}
use toolsy.Errors.{GoError, lit, wrap, to_error, new_internal_error, Result, ok, err}
use toolsy.Chunk.{Chunk, EventType, result, Payload, empty_chunk, no_data, mime_json}
use toolsy.Tool.{Script, ToolManifest}
use toolsy.Tool.Run.{Exit, returned, panicked, run_script}

pub record IdempotencyStore (M : Type 0) : Type 0 where
  pub get : M → String → Result (Option Payload)
  pub put : M → String → Payload → M × Option GoError

-- MemoryIdempotencyStore: a map, an entry for each key.
abbrev pub MemoryItems : Type 0
MemoryItems = List (String × Payload)

unfoldable pub memory_get : MemoryItems → String → Option Payload
memory_get [] key = none
memory_get ((k, p) ∷ items) key = if str_eq k key then some p else memory_get items key

unfoldable pub memory_put : MemoryItems → String → Payload → MemoryItems
memory_put [] key p = (key, p) ∷ []
memory_put ((k, q) ∷ items) key p =
    if str_eq k key then (k, p) ∷ items else (k, q) ∷ memory_put items key p

abbrev pub memory_store : IdempotencyStore MemoryItems
memory_store = record {
  get = λ m key. ok (memory_get m key);
  put = λ m key p. (memory_put m key p, none);
}

abbrev is_result : EventType → Bool
is_result result = true
is_result _ = false

-- The chunk that a stored result is handed on as.
abbrev pub cached_chunk : Payload → Chunk
cached_chunk p = record empty_chunk { event = result; payload = p; mime_type = mime_json }

abbrev pub is_captured : Chunk → Bool
is_captured c = is_result c.event && not c.is_error && not (no_data c.payload)

pub record IdempotentRun (M S : Type 0) : Type 0 where
  pub items : M
  pub consumer : S
  pub exit : Exit

abbrev pub ended : {M S : Type 0} → M → S → Exit → IdempotentRun M S
ended m s x = record { items = m; consumer = s; exit = x }

module _ {S : Type 0} (deliver : S → Chunk → S × Option GoError) (start : S → Script → S) where
  -- The yield that Execute hands to the next tool: the last result is kept beside the consumer.
  unfoldable pub capture : S × Option Payload → Chunk → (S × Option Payload) × Option GoError
  capture (s, kept) c =
      let (s', answer) = deliver s c in
      ((s', if is_captured c then some c.payload else kept), answer)

  abbrev pub start_captured : S × Option Payload → Script → S × Option Payload
  start_captured (s, kept) b = (start s b, kept)

  unfoldable pub run_captured : Script → S → (S × Option Payload) × Exit
  unfolding capture run_script
  run_captured next s = run_script capture start_captured next (s, none)

  module _ {M : Type 0} (store : IdempotencyStore M) where
    abbrev put_exit : Option GoError → Exit
    put_exit none = returned none
    put_exit (some e) =
        returned
          (some (to_error (new_internal_error (wrap (lit "toolsy: idempotency put" ∷ []) e))))

    -- The end of Execute: a result is stored after a run without an error.
    abbrev pub store_captured : M → String → (S × Option Payload) × Exit → IdempotentRun M S
    store_captured m key ((s, kept), panicked p) = ended m s (panicked p)
    store_captured m key ((s, kept), returned (some e)) = ended m s (returned (some e))
    store_captured m key ((s, none), returned none) = ended m s (returned none)
    store_captured m key ((s, some p), returned none) =
        let (m', failed) = store.put m key p in ended m' s (put_exit failed)

    abbrev replay : M → S × Option GoError → IdempotentRun M S
    replay m (s, answer) = ended m s (returned answer)

    abbrev run_plain : M → S × Exit → IdempotentRun M S
    run_plain m (s, x) = ended m s x

    abbrev looked_up : M → String → Script → S → Result (Option Payload) → IdempotentRun M S
    looked_up m key next s (err e) = ended m s (
        returned
          (some (to_error (new_internal_error (wrap (lit "toolsy: idempotency get" ∷ []) e)))))
    looked_up m key next s (ok (some p)) = replay m (deliver s (cached_chunk p))
    looked_up m key next s (ok none) = store_captured m key (run_captured next s)

    -- idempotencyTool.Execute, for the manifest, the key and the run of the next tool
    unfoldable pub execute_idempotent : ToolManifest → String → Script → M → S → IdempotentRun M S
    unfolding run_captured run_script
    execute_idempotent manifest key next m s =
        if not manifest.idempotent
        then run_plain m (run_script deliver start next s)
        else looked_up m key next s (store.get m key)
