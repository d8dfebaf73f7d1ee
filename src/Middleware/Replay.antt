-- ===== src/Middleware/Replay.antt =====
-- middleware_idempotency.go: the first call of a key and the calls after it, on the store in memory.
use toolsy.Prelude.{
  String, true, Option, none, some, [], ◌∷◌, ◌≡◌, ◌≢◌, refl, str_eq, str_eq_refl, Bool-cases, inl,
  inr,
}
use toolsy.Errors.{GoError}
use toolsy.Chunk.{Chunk, Payload}
use toolsy.Tool.{Script, done, panic, emit, spawn, ToolManifest}
use toolsy.Tool.Run.{Exit, returned, panicked, run_script}
use toolsy.Middleware.Idempotent.{
  MemoryItems, memory_get, memory_put, memory_store, cached_chunk, capture, run_captured,
  start_captured, IdempotentRun, ended, store_captured, execute_idempotent,
}

memory_get-memory_put :
    (m : MemoryItems) (key : String) (p : Payload) → memory_get (memory_put m key p) key ≡ some p
unfolding memory_get memory_put
memory_get-memory_put [] key p = rw str_eq_refl
memory_get-memory_put ((k, q) ∷ m) key p = elim (Bool-cases (str_eq k key)) [
  | inl h ↦ rw (h, h)
  | inr h ↦ rw (h, h, memory_get-memory_put m key p)
]

module _ {S : Type 0} (deliver : S → Chunk → S × Option GoError) (start : S → Script → S) where
  -- What a captured run does to the consumer, and how it ends, is what the plain run does.
  captured-plain :
      (t : Script) (s : S) (kept : Option Payload)
      → let run = run_script (capture deliver start) (start_captured deliver start) t (s, kept) in
        (run.0.0, run.1) ≡ run_script deliver start t s
  unfolding run_script capture
  captured-plain (done e) s kept = refl
  captured-plain (panic p) s kept = refl
  captured-plain (emit c k) s kept = captured-plain (k (deliver s c).1) (deliver s c).0 _
  captured-plain (spawn b k) s kept = captured-plain k (start s b) kept

  abbrev call : ToolManifest → String → Script → MemoryItems → S → IdempotentRun MemoryItems S
  call manifest key next m s = execute_idempotent deliver start memory_store manifest key next m s

  store_captured-ended :
      (m : MemoryItems) (key : String) (x : (S × Option Payload) × Exit)
      → let run = store_captured deliver start memory_store m key x in
        (run.consumer ≡ x.0.0) × (run.exit ≡ x.1) × (run.exit ≢ returned none → run.items ≡ m)
  store_captured-ended m key ((s, kept), panicked p) = (refl, refl, λ h. refl)
  store_captured-ended m key ((s, kept), returned (some e)) = (refl, refl, λ h. refl)
  store_captured-ended m key ((s, none), returned none) = (refl, refl, λ h. refl)
  store_captured-ended m key ((s, some p), returned none) = (refl, refl, λ h. absurd (h refl))

  -- The call of an idempotent tool with a key that is not stored does to the consumer what the plain run
  -- of the tool does, and ends as it; it stores nothing if the run ends by a panic or an error.
  pub execute_idempotent-first :
      (manifest : ToolManifest) (key : String) (next : Script) (m : MemoryItems) (s : S)
      → manifest.idempotent ≡ true
      → memory_get m key ≡ none
      → let run = call manifest key next m s in
        ((run.consumer, run.exit) ≡ run_script deliver start next s)
        × (run.exit ≢ returned none → run.items ≡ m)
  unfolding execute_idempotent run_captured
  execute_idempotent-first manifest key next m s h k =
      let (consumer, exit, kept) = store_captured-ended m key (run_captured deliver start next s) in
      rw (h, k) (rw (consumer, exit) (captured-plain next s none), kept)

  -- After a call of an idempotent tool that captured a result and ended without an error, each call with
  -- the same key, whatever the tool would do, hands the consumer that result in one chunk, ends as the
  -- consumer answers, and does not change the store.
  pub execute_idempotent-replay :
      (manifest : ToolManifest) (key : String) (next : Script) (m : MemoryItems) (s s' : S)
      (p : Payload) (again : Script) (later : S)
      → manifest.idempotent ≡ true
      → memory_get m key ≡ none
      → run_captured deliver start next s ≡ ((s', some p), returned none)
      → let items = (call manifest key next m s).items in
        call manifest key again items later
        ≡ ended items
            (deliver later (cached_chunk p)).0
            (returned (deliver later (cached_chunk p)).1)
  unfolding execute_idempotent
  execute_idempotent-replay manifest key next m s s' p again later h k run =
      rw (h, k, run, memory_get-memory_put m key p)
