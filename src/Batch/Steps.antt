-- ===== src/Batch/Steps.antt =====
-- registry.go (ExecuteBatchStream): what holds of a batch in every interleaving of its workers.
use toolsy.Prelude.{
  ◌≡◌, refl, ◌≢◌, ◌⊎◌, inl, inr, ◌∙◌, sym, ap, Bool, true, false, Option, none, some, arith,
  Option-cases,
}
use toolsy.Errors.{GoError, is, stream_aborted, is_control_error}
use toolsy.Chunk.{Chunk}
use toolsy.Batch.{
  Turn, free, let_in, answered, BatchState, abort_or_batch_done, record_stream_abort, enter,
  after_yield, deliver, record_answer, suspend, batch_result,
}

abbrev pub holds_chunk : Turn → Bool
holds_chunk free = false
holds_chunk (let_in c) = true
holds_chunk (answered e) = false

module _ {S : Type 0} (yield : S → Chunk → S × Option GoError) where
  -- A step: of the worker that has the gate, of a worker whose call ended, or of the caller's context.
  -- Aborts, suspensions and the end of the context fall between any two steps at the gate.
  pub data Step (b : BatchState S) : BatchState S → Type 0 where
    enters : (c : Chunk) → b.turn ≡ free → Step b (enter yield b c).0
    delivers : (c : Chunk) → b.turn ≡ let_in c → Step b (deliver yield b c)
    records : (e : GoError) → b.turn ≡ answered e → Step b (record_answer yield e b)
    aborts : (e : GoError) → is e stream_aborted ≡ true → Step b (record_stream_abort yield e b)
    suspends : (e : GoError) → is_control_error e ≡ true → Step b (suspend yield e b)
    context_ends : (e : GoError) → b.ctx_err ≡ none → Step b (record b { ctx_err = some e })

  pub data Reach (b : BatchState S) : BatchState S → Type 0 where
    here : Reach b b
    then_step : {m n : BatchState S} → Reach b m → Step m n → Reach b n

  pub Reach-trans : {a b c : BatchState S} → Reach a b → Reach b c → Reach a c
  Reach-trans p here = p
  Reach-trans p (then_step q s) = then_step (Reach-trans p q) s

  -- The batch was aborted, or its context is at its end.
  abbrev pub IsOver : BatchState S → Type 0
  IsOver b = (b.stream_abort_err ≢ none) ⊎ (b.ctx_err ≢ none)

  -- The consumer got no chunk, or only the one that was let in already; and no further one is let in.
  abbrev pub IsQuiet : BatchState S → BatchState S → Type 0
  IsQuiet a b =
      ((b.consumer ≡ a.consumer) × ((b.turn ≡ a.turn) ⊎ (holds_chunk b.turn ≡ false)))
      ⊎ ((c : Chunk) × (a.turn ≡ let_in c)
          × (b.consumer ≡ (yield a.consumer c).0)
          × (holds_chunk b.turn ≡ false))

  -- What no later state takes back: the first abort, the first suspension and the end of the context;
  -- and when the batch is over the consumer gets at most the chunk that was let in before.
  pub record IsLater (a b : BatchState S) : Type 0 where
    pub abort_kept : (e : GoError) → a.stream_abort_err ≡ some e → b.stream_abort_err ≡ some e
    pub suspend_kept : (e : GoError) → a.suspend_err ≡ some e → b.suspend_err ≡ some e
    pub ctx_kept : (e : GoError) → a.ctx_err ≡ some e → b.ctx_err ≡ some e
    pub quiet : IsOver a → IsQuiet a b

  IsLater-refl : (a : BatchState S) → IsLater a a
  IsLater-refl a = record {
    abort_kept = λ e h. h;
    suspend_kept = λ e h. h;
    ctx_kept = λ e h. h;
    quiet = λ h. inl (refl, inl refl);
  }

  IsLater-IsOver : (a b : BatchState S) → IsLater a b → IsOver a → IsOver b
  IsLater-IsOver a b l (inl h) = elim (Option-cases a.stream_abort_err) [
    | inl none_yet ↦ absurd (h none_yet)
    | inr (e, found) ↦ inl (λ k. absurd (cc (l.abort_kept e found)))
  ]
  IsLater-IsOver a b l (inr h) = elim (Option-cases a.ctx_err) [
    | inl none_yet ↦ absurd (h none_yet)
    | inr (e, found) ↦ inr (λ k. absurd (cc (l.ctx_kept e found)))
  ]

  nothing_held : (t : Turn) (c : Chunk) → holds_chunk t ≡ false → t ≢ let_in c
  nothing_held t c h e = absurd (cc (rw e at h))

  IsQuiet-trans : (a b c : BatchState S) → IsQuiet a b → IsQuiet b c → IsQuiet a c
  IsQuiet-trans a b c (inl (s, t)) (inl (s', inr t')) = inl (s' ∙ s, inr t')
  IsQuiet-trans a b c (inl (s, inl t)) (inl (s', inl t')) = inl (s' ∙ s, inl (t' ∙ t))
  IsQuiet-trans a b c (inl (s, inr t)) (inl (s', inl t')) =
      inl (s' ∙ s, inr (ap holds_chunk t' ∙ t))
  IsQuiet-trans a b c (inl (s, inl t)) (inr (k, held, s', t')) =
      inr (k, sym t ∙ held, s' ∙ ap (λ x. (yield x k).0) s, t')
  IsQuiet-trans a b c (inl (s, inr t)) (inr (k, held, s', t')) =
      absurd (nothing_held b.turn k t held)
  IsQuiet-trans a b c (inr (k, held, s, t)) (inl (s', inl t')) =
      inr (k, held, s' ∙ s, ap holds_chunk t' ∙ t)
  IsQuiet-trans a b c (inr (k, held, s, t)) (inl (s', inr t')) = inr (k, held, s' ∙ s, t')
  IsQuiet-trans a b c (inr (k, held, s, t)) (inr (j, again, s', t')) =
      absurd (nothing_held b.turn j t again)

  IsLater-trans : (a b c : BatchState S) → IsLater a b → IsLater b c → IsLater a c
  IsLater-trans a b c l m = record {
    abort_kept = λ e h. m.abort_kept e (l.abort_kept e h);
    suspend_kept = λ e h. m.suspend_kept e (l.suspend_kept e h);
    ctx_kept = λ e h. m.ctx_kept e (l.ctx_kept e h);
    quiet = λ h. IsQuiet-trans a b c (l.quiet h) (m.quiet (IsLater-IsOver a b l h));
  }

  enter-IsLater : (b : BatchState S) (c : Chunk) → IsLater b (enter yield b c).0
  unfolding enter abort_or_batch_done
  enter-IsLater b c = elim (Option-cases (abort_or_batch_done yield b)) [
    | inr (e, over) ↦ rw (enter, over) (IsLater-refl b)
    | inl goes_on ↦
        rw (enter, goes_on)
          (record {
            abort_kept = λ e k. k;
            suspend_kept = λ e k. k;
            ctx_kept = λ e k. k;
            quiet = λ k. absurd (
                ground
                  (arith, goes_on, k, Option-cases b.stream_abort_err, Option-cases b.ctx_err));
          })
  ]

  after_yield-IsLater :
      (b : BatchState S) (c : Chunk) (a : S × Option GoError)
      → b.turn ≡ let_in c
      → yield b.consumer c ≡ a
      → IsLater b (after_yield yield b a)
  after_yield-IsLater b c (s, none) held e = record {
    abort_kept = λ f k. k;
    suspend_kept = λ f k. k;
    ctx_kept = λ f k. k;
    quiet = λ k. inr (c, held, sym (ap (λ x. x.0) e), refl);
  }
  after_yield-IsLater b c (s, some f) held e = record {
    abort_kept = λ f k. k;
    suspend_kept = λ f k. k;
    ctx_kept = λ f k. k;
    quiet = λ k. inr (c, held, sym (ap (λ x. x.0) e), refl);
  }

  Step-IsLater : {a b : BatchState S} → Step a b → IsLater a b
  unfolding record_stream_abort suspend record_answer
  Step-IsLater {a} (enters c h) = enter-IsLater a c
  Step-IsLater {a} (delivers c h) = after_yield-IsLater a c (yield a.consumer c) h refl
  Step-IsLater {a} (records e h) = record {
    abort_kept = λ f k. ground (arith, k);
    suspend_kept = λ f k. ground (arith, k);
    ctx_kept = λ f k. ground (arith, k);
    quiet = λ k. inl (ground arith, inr (ground arith));
  }
  Step-IsLater {a} (aborts e h) = record {
    abort_kept = λ f k. ground (arith, k);
    suspend_kept = λ f k. ground (arith, k);
    ctx_kept = λ f k. ground (arith, k);
    quiet = λ k. inl (ground arith, inl (ground arith));
  }
  Step-IsLater {a} (suspends e h) = record {
    abort_kept = λ f k. ground (arith, k);
    suspend_kept = λ f k. ground (arith, k);
    ctx_kept = λ f k. ground (arith, k);
    quiet = λ k. inl (ground arith, inl (ground arith));
  }
  Step-IsLater {a} (context_ends e h) = record {
    abort_kept = λ f k. k;
    suspend_kept = λ f k. k;
    ctx_kept = λ f k. absurd (cc);
    quiet = λ k. inl (refl, inl refl);
  }

  -- In every interleaving of the workers, with the aborts and the end of the context between any two
  -- steps at the gate, the first stream abort and the first suspension are kept; and after an abort or the
  -- end of the context the consumer gets no chunk any more but the one, if there is one, that had been let
  -- in before.
  pub Reach-IsLater : {a b : BatchState S} → Reach a b → IsLater a b
  Reach-IsLater here = IsLater-refl _
  Reach-IsLater (then_step p s) = IsLater-trans _ _ _ (Reach-IsLater p) (Step-IsLater s)

  -- A stream abort is a stream abort for `errors.Is`, and a suspension is a control signal.
  pub record IsLabelled (b : BatchState S) : Type 0 where
    pub aborted : (e : GoError) → b.stream_abort_err ≡ some e → is e stream_aborted ≡ true
    pub suspended : (e : GoError) → b.suspend_err ≡ some e → is_control_error e ≡ true
    pub refused : (e : GoError) → b.turn ≡ answered e → is e stream_aborted ≡ true

  after_yield-IsLabelled :
      (b : BatchState S) (a : S × Option GoError)
      → IsLabelled b
      → IsLabelled (after_yield yield b a)
  unfolding is
  after_yield-IsLabelled b (s, none) h = record {
    aborted = h.aborted;
    suspended = h.suspended;
    refused = λ e k. absurd (cc);
  }
  after_yield-IsLabelled b (s, some f) h = record {
    aborted = h.aborted;
    suspended = h.suspended;
    refused = λ e k. ground (arith, k);
  }

  enter-IsLabelled : (b : BatchState S) (c : Chunk) → IsLabelled b → IsLabelled (enter yield b c).0
  unfolding enter
  enter-IsLabelled b c h = elim (Option-cases (abort_or_batch_done yield b)) [
    | inr (e, over) ↦ rw (enter, over) h
    | inl goes_on ↦
        rw (enter, goes_on)
          (record { aborted = h.aborted; suspended = h.suspended; refused = λ e k. absurd (cc) })
  ]

  Step-IsLabelled : {a b : BatchState S} → Step a b → IsLabelled a → IsLabelled b
  unfolding record_stream_abort suspend record_answer
  Step-IsLabelled {a} (enters c k) h = enter-IsLabelled a c h
  Step-IsLabelled {a} (delivers c k) h = after_yield-IsLabelled a (yield a.consumer c) h
  Step-IsLabelled {a} (records f held) h = record {
    aborted = λ e k. ground (arith, k, h.aborted e, h.refused f held);
    suspended = λ e k. h.suspended e (ground (arith, k));
    refused = λ e k. absurd (ground (arith, k));
  }
  Step-IsLabelled {a} (aborts f marked) h = record {
    aborted = λ e k. ground (arith, k, h.aborted e, marked);
    suspended = λ e k. h.suspended e (ground (arith, k));
    refused = λ e k. h.refused e (ground (arith, k));
  }
  Step-IsLabelled {a} (suspends f marked) h = record {
    aborted = λ e k. h.aborted e (ground (arith, k));
    suspended = λ e k. ground (arith, k, h.suspended e, marked);
    refused = λ e k. h.refused e (ground (arith, k));
  }
  Step-IsLabelled {a} (context_ends f alive) h = record {
    aborted = h.aborted;
    suspended = h.suspended;
    refused = h.refused;
  }

  Reach-IsLabelled : {a b : BatchState S} → Reach a b → IsLabelled a → IsLabelled b
  Reach-IsLabelled here h = h
  Reach-IsLabelled (then_step p s) h = Step-IsLabelled s (Reach-IsLabelled p h)

  -- What a batch returns that started without an error, if the caller's context goes on: nothing, a stream
  -- abort, or, if there was no abort, a control signal.
  pub batch_result-kind :
      (s : S) {b : BatchState S}
      → Reach
          (record {
            ctx_err = none;
            stream_abort_err = none;
            suspend_err = none;
            turn = free;
            consumer = s;
          })
          b
      → b.ctx_err ≡ none
      → (e : GoError) → batch_result yield b ≡ some e
      → (is e stream_aborted ≡ true) ⊎ ((is_control_error e ≡ true) × (b.stream_abort_err ≡ none))
  unfolding batch_result
  batch_result-kind s {b} p alive e h =
      let labels = Reach-IsLabelled p (record {
        aborted = λ f k. absurd (cc);
        suspended = λ f k. absurd (cc);
        refused = λ f k. absurd (cc);
      }) in
      elim (Option-cases b.stream_abort_err) [
        | inr (f, found) ↦ inl (ground (arith, h, alive, found, labels.aborted f found))
        | inl nothing ↦ inr (ground (arith, h, alive, nothing, labels.suspended e), nothing)
      ]
