-- ===== src/Async/Collection.antt =====
-- async.go: the callback of an async tool is told of every chunk, or of an error.
use mathlib.Core.List.{append-nil, append_assoc}
use toolsy.Prelude.{
  ℕ, String, ◌≤◌, ◌≡◌, refl, sym, ap, subst, ◌∙◌, ◌++◌, ◌≢◌, ◌⊎◌, inl, inr, false, Option, none,
  some, List, [], ◌∷◌, arith, length, length-append, leb, Bool-cases, Option-cases, All, All-append,
}
use toolsy.Errors.{GoError, Result, ok, err, Result-cases}
use toolsy.Chunk.{Codec, Chunk}
use toolsy.Chunk.Prepare.{prepare_chunk}
use toolsy.Chunk.Contract.{IsDeliverable, prepare_chunk-IsDeliverable}
use toolsy.Tool.{Script, done, panic, emit, spawn}
use toolsy.Tool.Run.{Exit, returned, panicked, run_script, run_script-keeps}
use toolsy.Async.{
  Accepting, accept, execute_async, after_accepted, yield_accepted, Collected, nothing_collected,
  refuse, collect_yield, execution_err_from_collected, execution_err, callback_error, keep_on,
  run_background,
}

-- The chunks that the tool of a run hands out, in their order, whose consumer answers with
-- `collect_yield`.
abbrev pub offered_in : Codec → ℕ → Script → Collected → List Chunk
offered_in codec max (done e) s = []
offered_in codec max (panic p) s = []
offered_in codec max (emit c k) s =
    let (s', answer) = collect_yield codec max s c in c ∷ offered_in codec max (k answer) s'
offered_in codec max (spawn b k) s = offered_in codec max k s

-- Chunks, one by one, as the wire contract makes them of what the tool handed out.
abbrev pub ArePrepared : Codec → List Chunk → List Chunk → Type 0
ArePrepared codec [] [] = Unit
ArePrepared codec (c ∷ cs) (k ∷ ks) = (prepare_chunk codec c ≡ ok k) × ArePrepared codec cs ks
ArePrepared codec _ _ = ⊥

module _ (codec : Codec) (max : ℕ) where
  pub record IsBounded (s : Collected) : Type 0 where
    pub bounded : length s.chunks ≤ max
    pub deliverable : All (IsDeliverable codec) s.chunks

  refuse-IsBounded : (e : GoError) (s : Collected) → IsBounded s → IsBounded (refuse e s).0
  refuse-IsBounded e s h = elim (Option-cases s.yield_err) [
    | inl first ↦ rw (first, refuse) (record { bounded = h.bounded; deliverable = h.deliverable })
    | inr (f, later) ↦ rw (later, refuse) h
  ]

  collect-IsBounded :
      (s : Collected) (c : Chunk) → IsBounded s → IsBounded (collect_yield codec max s c).0
  unfolding collect_yield
  collect-IsBounded s c h = elim (Bool-cases (leb max (length s.chunks))) [
    | inl full ↦ rw (full, collect_yield) (refuse-IsBounded _ s h)
    | inr room ↦ elim (Result-cases (prepare_chunk codec c)) [
      | inr (e, bad) ↦ rw (room, bad, collect_yield) (refuse-IsBounded e s h)
      | inl (k, good) ↦
          rw (room, good, collect_yield)
            (record {
              bounded = ground (arith, room, length-append s.chunks (k ∷ []));
              deliverable =
                  All-append (IsDeliverable codec) s.chunks (k ∷ []) h.deliverable
                    (prepare_chunk-IsDeliverable codec c good, tt);
            })
    ]
  ]

  -- A chunk is collected, or its refusal is remembered.
  collect-remembers :
      (s : Collected) (c : Chunk)
      → let t = (collect_yield codec max s c).0 in
        (s.yield_err ≢ none → t.yield_err ≢ none)
        × (t.yield_err ≡ none
            → (k : Chunk) × (prepare_chunk codec c ≡ ok k) × (t.chunks ≡ s.chunks ++ k ∷ []))
  unfolding collect_yield
  collect-remembers s c = elim (Bool-cases (leb max (length s.chunks))) [
    | inl full ↦ (λ h. ground (arith, full, h), λ h. absurd (ground (arith, full, h)))
    | inr room ↦ elim (Result-cases (prepare_chunk codec c)) [
      | inr (e, bad) ↦
          (λ h. ground (arith, room, bad, h), λ h. absurd (ground (arith, room, bad, h)))
      | inl (k, good) ↦
          ((λ h. ground (arith, room, good, h)), λ h. (k, good, ground (arith, room, good, h)))
    ]
  ]

  collect-all :
      (t : Script) (s : Collected)
      → let end = (run_script (collect_yield codec max) keep_on t s).0 in
        (s.yield_err ≢ none → end.yield_err ≢ none)
        × (end.yield_err ≡ none
            → (ks : List Chunk) × ArePrepared codec (offered_in codec max t s) ks
              × (end.chunks ≡ s.chunks ++ ks))
  unfolding run_script
  collect-all (done e) s = ((λ h. h), λ h. ([], tt, sym (append-nil s.chunks)))
  collect-all (panic p) s = ((λ h. h), λ h. ([], tt, sym (append-nil s.chunks)))
  collect-all (spawn b k) s = collect-all k s
  collect-all (emit c k) s =
      let m = (collect_yield codec max s c).0 in
      let now = collect-remembers s c in
      let later = collect-all (k (collect_yield codec max s c).1) m in
      (
        (λ h. later.0 (now.0 h)),
        λ h. elim (Option-cases m.yield_err) [
          | inr (e, refused) ↦ absurd (later.0 (λ k. absurd (cc)) h)
          | inl fine ↦
              let (x, good, added) = now.1 fine in
              let (ks, prepared, rest) = later.1 h in
              (
                x ∷ ks,
                (good, prepared),
                rest ∙ ap (λ l. l ++ ks) added ∙ append_assoc s.chunks (x ∷ []) ks,
              )
        ],
      )

  no_error-collected :
      (cs : List Chunk)
      → execution_err_from_collected codec cs ≡ none
      → All (λ c. c.is_error ≡ false) cs
  unfolding execution_err_from_collected
  no_error-collected [] h = tt
  no_error-collected (c ∷ cs) h = (ground (arith, h), no_error-collected cs (ground (arith, h)))

  callback_error-none : (e : Option GoError) → callback_error e ≡ none → e ≡ none
  unfolding callback_error
  callback_error-none e h = ground (arith, h)

  told :
      (t : Script) (run : Collected × Exit)
      → (run.0.yield_err ≡ none
          → (ks : List Chunk) × ArePrepared codec (offered_in codec max t nothing_collected) ks
            × (run.0.chunks ≡ ks))
      → execution_err codec run.0 run.1 ≡ none
      → ArePrepared codec (offered_in codec max t nothing_collected) run.0.chunks
        × (run.1 ≡ returned none)
        × All (λ c. c.is_error ≡ false) run.0.chunks
  unfolding execution_err
  told t (s, panicked p) f h = absurd (cc)
  told t (s, returned (some e)) f h = absurd (cc)
  told t (s, returned none) f h = elim (Option-cases s.yield_err) [
    | inr (e, refused) ↦ absurd (cc (rw (refused, execution_err) at h))
    | inl fine ↦
        let (ks, prepared, same) = f fine in
        (
          subst (ArePrepared codec (offered_in codec max t nothing_collected)) (sym same) prepared,
          refl,
          no_error-collected s.chunks (rw (fine, execution_err) at h),
        )
  ]

  -- Whatever the tool does in the background, its callback gets at most the chunks that the limit allows,
  -- each of which passed the wire contract; and it is told of no error only if it gets every chunk that
  -- the tool handed out, in their order and as the wire contract makes them, the tool returned nil and none
  -- of the chunks is an error chunk.
  pub run_background_complete :
      (t : Script)
      → let done_with = run_background codec max t in
        let run = run_script (collect_yield codec max) keep_on t nothing_collected in
        (length done_with.chunks ≤ max)
        × All (IsDeliverable codec) done_with.chunks
        × (done_with.error ≡ none
            → ArePrepared codec (offered_in codec max t nothing_collected) done_with.chunks
              × (run.1 ≡ returned none)
              × All (λ c. c.is_error ≡ false) done_with.chunks)
  unfolding run_background
  run_background_complete t =
      let run = run_script (collect_yield codec max) keep_on t nothing_collected in
      let kept =
        run_script-keeps (collect_yield codec max) keep_on IsBounded collect-IsBounded (λ s b h. h)
          t nothing_collected (record { bounded = omega arith; deliverable = tt }) in
      (
        kept.bounded,
        kept.deliverable,
        λ h. told t run (collect-all t nothing_collected).1 (callback_error-none _ h),
      )

-- A consumer beside the list of the background work that was started.
abbrev pub noting :
    {S : Type 0}
    → (S → Chunk → S × Option GoError)
    → S × List Script
    → Chunk
    → (S × List Script) × Option GoError
noting deliver (s, bs) c = let (s', answer) = deliver s c in ((s', bs), answer)

abbrev pub noted : {S : Type 0} → S × List Script → Script → S × List Script
noted (s, bs) b = (s, b ∷ bs)

module _ {S : Type 0} (codec : Codec) (background : Script)
    (deliver : S → Chunk → S × Option GoError) where
  -- The two ways in which the run of an async tool ends.
  abbrev Ends : (S × List Script) × Exit → Type 0
  Ends run =
      ((run.1 ≡ returned none) × (run.0.1 ≡ background ∷ []))
      ⊎ ((e : GoError) × (run.1 ≡ returned (some e)) × (run.0.1 ≡ []))

  accepted-Ends :
      (s : S) (a : Option GoError)
      → Ends (run_script (noting deliver) noted (after_accepted background a) (s, []))
  unfolding run_script
  accepted-Ends s none = inl (refl, refl)
  accepted-Ends s (some e) = inr (_, refl, refl)

  yield-Ends :
      (s : S) (c : Result Chunk)
      → Ends (run_script (noting deliver) noted (yield_accepted background c) (s, []))
  unfolding run_script
  yield-Ends s (err e) = inr (e, refl, refl)
  yield-Ends s (ok c) = accepted-Ends (deliver s c).0 (deliver s c).1

  accept-Ends :
      (a : Accepting) (s : S) (id : Result String)
      → Ends (run_script (noting deliver) noted (accept codec a background id) (s, []))
  unfolding run_script
  accept-Ends a s (err e) = inr (e, refl, refl)
  accept-Ends a s (ok id) = elim (Option-cases a.ctx_err_later) [
    | inr (e, ended) ↦ rw ended (inr (e, refl, refl))
    | inl goes_on ↦ rw goes_on (yield-Ends s _)
  ]

  -- The run of an async tool either returns nil and has started its background work, once, or returns an
  -- error and has started nothing.
  pub execute_async-guard :
      (a : Accepting) (s : S)
      → let run = run_script (noting deliver) noted (execute_async codec a background) (s, []) in
        ((run.1 ≡ returned none) × (run.0.1 ≡ background ∷ []))
        ⊎ ((e : GoError) × (run.1 ≡ returned (some e)) × (run.0.1 ≡ []))
  unfolding execute_async run_script
  execute_async-guard a s = elim (Option-cases a.ctx_err) [
    | inr (e, ended) ↦ rw ended (inr (e, refl, refl))
    | inl goes_on ↦ rw goes_on (accept-Ends a s a.task_id)
  ]
