-- ===== src/Registry/Iteration.antt =====
-- registry.go (ExecuteIter): a call as an iterator, whose consumer stops it by its answer.
--
-- The consumer of a pair of a chunk and an error answers whether it goes on. A cancelled child context is
-- part of what `interrupt` says of it.
use toolsy.Prelude.{
  ℕ, Bool, true, false, not, ◌&&◌, Option, none, some, List, [], ◌∷◌, ◌≡◌, refl, inl, inr,
  Bool-cases, if◌then◌else◌,
}
use toolsy.Errors.{GoError, sentinel, canceled, is_context_interrupt}
use toolsy.Chunk.{Chunk, empty_chunk}
use toolsy.Tool.Run.{Exit, returned, panicked}
use toolsy.Registry.{Registry, RuntimeState}
use toolsy.Registry.Execute.{Host, ToolCall, execute_with_summary}
use toolsy.Registry.Keeps.{execute_with_summary-keeps}

pub record IterState (S : Type 0) : Type 0 where
  pub consumer : S
  pub consumer_stopped : Bool

module _ {S : Type 0} (yield : S → Chunk → Option GoError → S × Bool) where
  abbrev answered : S × Bool → IterState S × Option GoError
  answered (s, true) = (record { consumer = s; consumer_stopped = false }, none)
  answered (s, false) = (record { consumer = s; consumer_stopped = true }, some (sentinel canceled))

  -- The yield that ExecuteIter hands to the call.
  unfoldable pub iter_yield : IterState S → Chunk → IterState S × Option GoError
  iter_yield st c =
      if st.consumer_stopped
      then (st, some (sentinel canceled))
      else answered (yield st.consumer c none)

  -- After the call: its error goes to a consumer that has not stopped.
  unfoldable pub finish_iter : IterState S → Exit → S
  finish_iter st (panicked p) = st.consumer
  finish_iter st (returned none) = st.consumer
  finish_iter st (returned (some e)) =
      if not st.consumer_stopped && not (is_context_interrupt e)
      then (yield st.consumer empty_chunk (some e)).0
      else st.consumer

  -- Registry.ExecuteIter, run to its end: what the consumer becomes.
  unfoldable pub execute_iter :
      Host → Registry → (ℕ → Option GoError) → ToolCall → RuntimeState → S → S
  unfolding iter_yield finish_iter
  execute_iter host r interrupt call runtime s =
      let start : IterState S = record { consumer = s; consumer_stopped = false } in
      let run = execute_with_summary host r interrupt iter_yield true call runtime start in
      finish_iter run.progress.consumer run.exit

-- What a consumer was handed, the last first.
abbrev pub Handed : Type 0
Handed = List (Chunk × Option GoError)

module _ (answer : Handed → Chunk → Option GoError → Bool) where
  -- A consumer that keeps what it was handed, and answers as `answer` says.
  abbrev pub keeping : Handed → Chunk → Option GoError → Handed × Bool
  keeping seen c e = ((c, e) ∷ seen, answer seen c e)

  -- All of it was a chunk without an error, and the consumer wanted more after each.
  abbrev pub AllGoOn : Handed → Type 0
  AllGoOn [] = Unit
  AllGoOn ((c, e) ∷ seen) = (answer seen c e ≡ true) × (e ≡ none) × AllGoOn seen

  abbrev pub IsFinalError : Option GoError → Type 0
  IsFinalError none = Unit
  IsFinalError (some e) = is_context_interrupt e ≡ false

  -- Nothing came after the consumer stopped or after an error.
  abbrev pub IsOrderly : Handed → Type 0
  IsOrderly [] = Unit
  IsOrderly ((c, e) ∷ seen) = IsFinalError e × AllGoOn seen

  abbrev IsFollowed : IterState Handed → Type 0
  IsFollowed st = if st.consumer_stopped then IsOrderly st.consumer else AllGoOn st.consumer

  AllGoOn-IsOrderly : (seen : Handed) → AllGoOn seen → IsOrderly seen
  AllGoOn-IsOrderly [] h = tt
  AllGoOn-IsOrderly ((c, none) ∷ seen) h = (tt, h.2)
  AllGoOn-IsOrderly ((c, some e) ∷ seen) h = let bad = h.1 in absurd (cc)

  IsFollowed-IsOrderly : (st : IterState Handed) → IsFollowed st → IsOrderly st.consumer
  IsFollowed-IsOrderly st h = elim (Bool-cases st.consumer_stopped) [
    | inl stopped ↦ rw stopped at h
    | inr running ↦ AllGoOn-IsOrderly st.consumer (rw running at h)
  ]

  iter_yield-IsFollowed :
      (st : IterState Handed) (c : Chunk) → IsFollowed st → IsFollowed (iter_yield keeping st c).0
  unfolding iter_yield
  iter_yield-IsFollowed st c h = elim (Bool-cases st.consumer_stopped) [
    | inl stopped ↦
        rw (iter_yield, stopped) (let kept : IsOrderly st.consumer = rw stopped at h in kept)
    | inr running ↦ elim (Bool-cases (answer st.consumer c none)) [
      | inl goes_on ↦ rw (running, goes_on) (goes_on, refl, rw running at h)
      | inr stops ↦ rw (running, stops) (tt, rw running at h)
    ]
  ]

  finish_iter-IsOrderly :
      (st : IterState Handed) (x : Exit) → IsFollowed st → IsOrderly (finish_iter keeping st x)
  unfolding finish_iter
  finish_iter-IsOrderly st (panicked p) h = IsFollowed-IsOrderly st h
  finish_iter-IsOrderly st (returned none) h = IsFollowed-IsOrderly st h
  finish_iter-IsOrderly st (returned (some e)) h = elim (Bool-cases st.consumer_stopped) [
    | inl stopped ↦ rw stopped (rw stopped at h)
    | inr running ↦ elim (Bool-cases (is_context_interrupt e)) [
      | inl i ↦ rw (running, i) (AllGoOn-IsOrderly st.consumer (rw running at h))
      | inr i ↦ rw (running, i) (i, rw running at h)
    ]
  ]

  -- Whatever a tool emits and however the call ends, an iterator hands its consumer nothing more once the
  -- consumer has stopped, an error only as the last pair, and no error that is an interrupt of the
  -- context.
  pub execute_iter-IsOrderly :
      (host : Host) (r : Registry) (interrupt : ℕ → Option GoError) (call : ToolCall)
      (runtime : RuntimeState)
      → IsOrderly (execute_iter keeping host r interrupt call runtime [])
  unfolding execute_iter
  execute_iter-IsOrderly host r interrupt call runtime = finish_iter-IsOrderly _ _ (
      execute_with_summary-keeps host r interrupt (iter_yield keeping) IsFollowed
        iter_yield-IsFollowed true call runtime _ tt)
